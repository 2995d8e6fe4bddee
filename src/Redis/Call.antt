-- ===== src/Redis/Call.antt =====
-- How a call of the client reaches the server. A call carries some commands; when the link is cut
-- the client gets an error, after the server has executed a prefix of them. A script is one command.
use dispatchhub.Prelude.{ℕ, zero, suc, List, [], ◌∷◌, take}

pub data Link : Type 0 where
  up : Link
  cut : ℕ → Link

pub data Reply {ℓ} (A : Type ℓ) : Type ℓ where
  ok : A → Reply A
  err : Reply A

-- A script's effect on the store stays when the script itself fails.
unfoldable pub run_script : {S A : Type 0} → Link → (S → Reply A × S) → S → Reply A × S
run_script up f s = f s
run_script (cut zero) f s = (err, s)
run_script (cut (suc n)) f s = (err, (f s).1)

abbrev pub apply_all : {S : Type 0} → List (S → S) → S → S
apply_all [] s = s
apply_all (f ∷ fs) s = apply_all fs (f s)

unfoldable pub run_pipeline : {S : Type 0} → Link → List (S → S) → S → Reply (Unit {0}) × S
run_pipeline up fs s = (ok tt, apply_all fs s)
run_pipeline (cut n) fs s = (err, apply_all (take n fs) s)
