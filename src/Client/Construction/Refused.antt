-- ===== src/Client/Construction/Refused.antt =====
-- Whatever NewClient refuses, it names a configuration error.
use stripelink.Prelude.{String, ◌≡◌, true, arith}
use stripelink.Prelude.Int.{ℤ, pos, negsuc}
use stripelink.Errors.{Err, invalid_configuration, is, Result, ok, err, ◌>>=◌}
use stripelink.World.{Env}
use stripelink.Storage.{Storage}
use stripelink.FileStorage.Path.{new_file_storage}
use stripelink.Client.Construction.{
  Options, Process, Interface, nil, typed_nil, holds, configuring, response_bound, resolve_storage,
  new_client,
}

-- Each error of a result is a configuration error.
record Blames {ℓ} {A : Type ℓ} (r : Result A) : Type ℓ where
  at : (e : Err) → r ≡ err e → is invalid_configuration e ≡ true

Blames-ok {ℓ} : {A : Type ℓ} (a : A) → Blames (ok a)
Blames-ok a = record { at = λ e h. cc }

Blames-bind {ℓ κ} :
    {A : Type ℓ} {B : Type κ} (r : Result A) (f : A → Result B)
    → Blames r
    → ((a : A) → Blames (f a))
    → Blames (r >>= f)
Blames-bind (ok a) f b g = g a
Blames-bind (err x) f b g = record { at = λ e h. b.at e (cc h) }

Blames-configuring {ℓ} : {A : Type ℓ} (what : String) (r : Result A) → Blames (configuring what r)
Blames-configuring what (ok a) = Blames-ok a
Blames-configuring what (err x) = record { at = λ e h. ground (arith, h) }

Blames-response_bound : (asked : ℤ) → Blames (response_bound asked)
unfolding response_bound
Blames-response_bound (pos n) = Blames-ok _
Blames-response_bound (negsuc n) = record { at = λ e h. ground (arith, h) }

ruleset blame_rules = (Blames-ok, Blames-bind, Blames-configuring, Blames-response_bound)

module _ {S : Type 0} (env : Env S) (process : Process) (file_store : String → Storage env) where
  Blames-resolve_storage :
      (given : Interface (Storage env)) → Blames (resolve_storage env process file_store given)
  unfolding resolve_storage
  Blames-resolve_storage nil =
      Blames-bind (configuring "auth storage" (new_file_storage process.paths "")) _
        (Blames-configuring _ _) (λ path. Blames-ok _)
  Blames-resolve_storage typed_nil = record { at = λ e h. ground (arith, h) }
  Blames-resolve_storage (holds storage) = Blames-ok storage

  new_client-Blames : (opts : Options env) → Blames (new_client env process file_store opts)
  unfolding new_client
  new_client-Blames opts = search (blame_rules, Blames-resolve_storage) depth 30

  -- Every error of NewClient is an ErrInvalidConfiguration.
  pub new_client-error :
      (opts : Options env) (e : Err)
      → new_client env process file_store opts ≡ err e
      → is invalid_configuration e ≡ true
  new_client-error opts = (new_client-Blames opts).at
