-- ===== src/Vm/Names/Agreement.antt =====
-- The two tables of names in ethchain/types.go.
use goeth_self_training.Prelude.{
  ℕ, ◌≡◌, inl, inr, refl, sym, subst, ◌∙◌, arith, Bool, true, false, ◌||◌, ◌&&◌, List, [], ◌∷◌,
  Bool-cases, if◌then◌else◌,
}
use Prim.Native.String.{String}
use text.Mathlib.Text.{◌==◌ as str_eq}
use text.Mathlib.TextEquality.{eq_iff}
use goeth_self_training.Vm.Names.{op_code_to_string, op_codes, string_of, is_op_code, code_of}

-- The names that stand for another code in the two tables, or have no code in one of them.
abbrev pub misplaced : List String
misplaced = "GASPRICE" ∷ "POP" ∷ "PUSH26" ∷ "SUICIDE" ∷ []

unfoldable pub is_among : String → List String → Bool
is_among s [] = false
is_among s (t ∷ ts) = let rest = is_among s ts in if str_eq t s then true else rest

agrees : List (String × ℕ) → Bool
agrees [] = true
agrees ((name, c) ∷ more) =
    (is_among name misplaced || str_eq (string_of c op_code_to_string) name) && agrees more

op_codes-agree : agrees op_codes ≡ true
unfolding agrees is_among string_of
op_codes-agree = refl

both : (a b : Bool) → (a && b) ≡ true → (a ≡ true) × (b ≡ true)
both a b h = ground arith

the_other : (a b : Bool) → (a || b) ≡ true → a ≡ false → b ≡ true
the_other a b h e = ground arith

in_the_rest : (b r : Bool) → (if b then true else r) ≡ true → b ≡ false → r ≡ true
in_the_rest b r h e = ground arith

code_of-agrees :
    (s : String) (table : List (String × ℕ))
    → agrees table ≡ true
    → is_op_code s table ≡ true
    → is_among s misplaced ≡ false
    → string_of (code_of s table) op_code_to_string ≡ s
unfolding agrees is_op_code code_of
code_of-agrees s [] h k l = cc
code_of-agrees s ((name, c) ∷ more) h k l = elim (Bool-cases (str_eq name s)) [
  | inl e ↦
      let n : name ≡ s = (eq_iff name s).0 e in
      let ok' =
        the_other (is_among name misplaced) _ (both _ _ h).0
          (subst (λ t. is_among t misplaced ≡ false) (sym n) l) in
      rw e ((eq_iff (string_of c op_code_to_string) name).0 ok' ∙ n)
  | inr e ↦ rw e (code_of-agrees s more (both _ _ h).1 (in_the_rest (str_eq name s) _ k e) l)
]

-- A name that the assembler's table has is the name of the code that it is assembled to, but for
-- GASPRICE, POP, PUSH26 and SUICIDE.
pub string_of-code_of :
    (s : String)
    → is_op_code s op_codes ≡ true
    → is_among s misplaced ≡ false
    → string_of (code_of s op_codes) op_code_to_string ≡ s
string_of-code_of s k l = code_of-agrees s op_codes op_codes-agree k l
