-- ===== src/Queue/NodeId.antt =====
-- The default node id: its digits, and the random suffix.
use Prim.Native.String.{◌++◌, count}
use Prim.Native.Char.{Char, code}
use Prim.Native.String.count
use native.Mathlib.Decide.{ℕ_discrete}
use text.Mathlib.TextLemmas.{head-eq_of_cons-eq, tail-eq_of_cons-eq, append_inj, length-append}
use mongoqueue.Base.{
  ℕ, zero, suc, ◌-◌, ◌<◌, ◌/◌, String, ltb, Bool, true, ◌&&◌, eqb, if◌then◌else◌, ◌≡◌, refl, sym,
  arith, inl, inr, Bool-cases, subst, ◌∷◌, [], ◌∙◌, List, ap, ok, ◌%◌, ap₂, Result, some,
}
use mongoqueue.Queue.{hex_digit, digits, encode_to_string, default_node_id, random_hex}
use mongoqueue.Errors.{DriverError}

-- With fuel above the number, more fuel changes nothing.
digits_enough : (f g n : ℕ) (after : String) → n < f → n < g → digits f n after ≡ digits g n after
unfolding digits
digits_enough zero g n after p q = elim p [ ]
digits_enough (suc f) zero n after p q = elim q [ ]
digits_enough (suc f) (suc g) n after p q = elim (Bool-cases (ltb n 10)) [
  | inl small ↦ rw small refl
  | inr large ↦ rw large (digits_enough f g (n / 10) _ (ground arith) (ground arith))
]

-- The value of a hexadecimal digit.
hex_value : Char → ℕ
hex_value c = if ltb (code c) 58 then code c - 48 else code c - 87

all_below : ℕ → (ℕ → Bool) → Bool
all_below zero f = true
all_below (suc n) f = f n && all_below n f

all_below-elim : (n : ℕ) (f : ℕ → Bool) (i : ℕ) → all_below n f ≡ true → i < n → f i ≡ true
unfolding all_below
all_below-elim zero f i h p = elim p [ ]
all_below-elim (suc n) f i h p = elim (ℕ_discrete i n) [
  | yes e ↦ subst (λ x. f x ≡ true) (sym e) (ground arith)
  | no e ↦ all_below-elim n f i (ground arith) (omega arith)
]

hex_value-digit : (n : ℕ) → n < 16 → hex_value (hex_digit n) ≡ n
unfolding hex_value all_below
hex_value-digit n p =
    ground (arith, all_below-elim 16 (λ i. eqb (hex_value (hex_digit i)) i) n refl p)

hex_digit-injective : (m n : ℕ) → m < 16 → n < 16 → hex_digit m ≡ hex_digit n → m ≡ n
hex_digit-injective m n p q e = sym (hex_value-digit m p) ∙ ap hex_value e ∙ hex_value-digit n q

byte-injective :
    (b c : ℕ)
    → b < 256
    → c < 256
    → hex_digit (b / 16) ≡ hex_digit (c / 16)
    → hex_digit (b % 16) ≡ hex_digit (c % 16)
    → b ≡ c
byte-injective b c p q high low = omega (
  arith,
  hex_digit-injective (b / 16) (c / 16) (omega arith) (omega arith) high,
  hex_digit-injective (b % 16) (c % 16) (omega arith) (omega arith) low,
)

abbrev pub AllBytes : List ℕ → Type 0
AllBytes [] = Unit {0}
AllBytes (b ∷ bs) = (b < 256) × AllBytes bs

encode_to_string-injective :
    (bs cs : List ℕ)
    → AllBytes bs
    → AllBytes cs
    → encode_to_string bs ≡ encode_to_string cs
    → bs ≡ cs
encode_to_string-injective [] [] p q e = refl
encode_to_string-injective [] (c ∷ cs) p q e = cc
encode_to_string-injective (b ∷ bs) [] p q e = cc
encode_to_string-injective (b ∷ bs) (c ∷ cs) p q e =
    ap₂ (λ x (xs : List ℕ). x ∷ xs)
      (byte-injective b c p.0 q.0 (head-eq_of_cons-eq e)
        (head-eq_of_cons-eq (tail-eq_of_cons-eq e)))
      (encode_to_string-injective bs cs p.1 q.1 (tail-eq_of_cons-eq (tail-eq_of_cons-eq e)))

-- Texts of one length at the end of equal texts are equal.
suffix_cancel : (s t a b : String) → count a ≡ count b → s ++ a ≡ t ++ b → a ≡ b
suffix_cancel s t a b same e =
    (append_inj e (omega (arith, same, length-append s a, length-append t b, ap count e))).1

twice : List ℕ → ℕ
twice [] = 0
twice (b ∷ bs) = suc (suc (twice bs))

count-encode_to_string : (bs : List ℕ) → count (encode_to_string bs) ≡ twice bs
unfolding twice
count-encode_to_string [] = count.nil
count-encode_to_string (b ∷ bs) =
    count.cons _ _ ∙ ap suc (count.cons _ _ ∙ ap suc (count-encode_to_string bs))

some_eq : {x y : String} → some x ≡ some y → x ≡ y
some_eq e = cc

-- If two default node ids are equal, then the random bytes that went into them are, whatever the
-- names of the hosts and the process ids.
pub default_node_id-distinct :
    (host host' : Result DriverError String) (pid pid' b c d e b' c' d' e' : ℕ)
    → AllBytes (b ∷ c ∷ d ∷ e ∷ [])
    → AllBytes (b' ∷ c' ∷ d' ∷ e' ∷ [])
    → default_node_id host pid (ok (b, c, d, e)) ≡ default_node_id host' pid' (ok (b', c', d', e'))
    → ◌≡◌ {A = List ℕ} (b ∷ c ∷ d ∷ e ∷ []) (b' ∷ c' ∷ d' ∷ e' ∷ [])
unfolding default_node_id random_hex twice
default_node_id-distinct host host' pid pid' b c d e b' c' d' e' p q same =
    encode_to_string-injective bs bs' p q (
      suffix_cancel _ _ _ _ (count-encode_to_string bs ∙ sym (count-encode_to_string bs'))
        (some_eq same))
  where
    bs : List ℕ
    bs = b ∷ c ∷ d ∷ e ∷ []

    bs' : List ℕ
    bs' = b' ∷ c' ∷ d' ∷ e' ∷ []
