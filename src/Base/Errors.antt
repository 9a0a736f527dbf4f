-- ===== src/Base/Errors.antt =====
-- Go's pair of a value and an error, of which exactly one counts.
pub data Except {ℓ κ} (Err : Type ℓ) (Val : Type κ) : Type (ℓ ⊔ κ) where
  ok : Val → Except Err Val
  err : Err → Except Err Val

-- `if err != nil { return err }`, then the rest.
infixl 5 ◌>>=◌
abbrev pub ◌>>=◌ {ℓ κ μ} :
    {Err : Type ℓ} {Val : Type κ} {Out : Type μ}
    → Except Err Val
    → (Val → Except Err Out)
    → Except Err Out
err reason >>= rest = err reason
ok val >>= rest = rest val
