-- ===== src/Config/Runs.antt =====
-- The theorems on the configuration at concrete inputs.
use lynx_dns.Common.{◌≡◌, refl, arith, inr, none, [], ◌∷◌, codes}
use lynx_dns.Config.{
  FullConfig, default_config, Yaml, Manager, new_manager, Access, save, load, read_file,
  with_secret, generate_secret,
}
use lynx_dns.Config.Saved.{overlay, load-save, HasSecret, load_secret}

abbrev fine : Access
fine = record { read_error = none; write_error = none; left = none }

-- A format that knows one configuration, the default with a secret.
abbrev saved_config : FullConfig
saved_config = with_secret (1 ∷ 2 ∷ []) default_config

abbrev with_default : Manager
with_default = record (new_manager none) { config = saved_config }

abbrev one_config : Yaml
one_config = record {
  marshal = λ c. inr (codes "saved");
  unmarshal = λ text d. (overlay saved_config d, none);
}

load-save_example :
    ((load one_config fine [] (save one_config fine with_default).0).0.config
      ≡ overlay with_default.config default_config)
    × ((load one_config fine [] (save one_config fine with_default).0).1 ≡ none)
unfolding new_manager with_secret generate_secret default_config
load-save_example =
    load-save one_config fine [] with_default (codes "saved", refl, λ d. refl) refl refl refl

load_secret_example : HasSecret (load one_config fine (7 ∷ []) (new_manager none)).0.config
unfolding load new_manager read_file
load_secret_example = load_secret one_config fine (7 ∷ []) (new_manager none) (omega arith) refl

secret_text : generate_secret (171 ∷ 1 ∷ []) ≡ codes "ab01"
unfolding generate_secret
secret_text = refl
