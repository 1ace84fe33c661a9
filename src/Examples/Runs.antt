-- ===== src/Examples/Runs.antt =====
-- Arguments, features and a backend for the runs.
use sifir.Base.{◌∷◌, inr, none, some, true}
use sifir.Base.Text.{text}
use sifir.Server.Proxy.{Upstream}
use sifir.Server.Main.{Args, Features}
use sifir.Examples.Setups.{genoa, script}

abbrev pub toy_features : Features
toy_features = record { real_attestation = true; gpu_cc = true }

abbrev pub toy_args : Args
toy_args = record {
  listen = text "0.0.0.0:7443";
  backend = none;
  amd = true;
  snp_product = genoa;
  gpu_cc = true;
  gpu_attest_script = some script;
}

abbrev pub toy_upstream : Upstream
toy_upstream = record {
  from_slice = λ b. inr (record { prompt = b });
  send = λ p. inr (record { status = 200; bytes = inr (7 ∷ 9 ∷ p.body) });
  from_u16 = λ s. some s;
}
