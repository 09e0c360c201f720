-- ===== src/Mongo/Memory/Query.antt =====
-- The query language over jobs in memory.
use package.text.Mathlib.Text.{starts_with, is_lt}
use package.text.Mathlib.TextPositions.{compare_refl}
use mongoqueue.Base.{
  String, ◌≡◌, Bool, true, false, ◌&&◌, ◌||◌, Option, none, some, ◌==◌, text_lt, if◌then◌else◌,
  refl, inl, inr, Bool-cases, arith, true≢false, sym, ◌∙◌, ap, eq_iff, subst, eq_refl,
}
use mongoqueue.Base.Int.{ℤ, pos, ◌+ℤ◌, ltb_ℤ, leb_ℤ, eqb_ℤ}
use mongoqueue.Bson.{
  Value, text, int, date, object, array, missing, Doc, empty, entry, Values, stop, item,
}
use mongoqueue.Job.{Job, text_field, assign}
use mongoqueue.Mongo.Language.{Language, pair, operator}

sum : Value → Value → Value
sum (date t) (int n) = date (t +ℤ n)
sum (int m) (int n) = int (m +ℤ n)
sum _ _ = missing

value_of_text : String → ℤ → Job → Value
value_of_text s now j =
    if s == "$$NOW"
    then date now
    else if s == "$visible_at"
    then date j.visible_at
    else if s == "$attempts"
    then int j.attempts
    else text s

unfoldable pub eval : Value → ℤ → Job → Value
unfolding value_of_text sum
eval (text s) now j = value_of_text s now j
eval (object (entry op (array (item a (item b stop))) empty)) now j =
    let x = eval a now j in
    let y = eval b now j in
    if op == "$literal" then pair a b else if op == "$add" then sum x y else missing
eval (object (entry op v empty)) now j = if op == "$literal" then v else missing
eval v now j = v

le_dates : Value → Value → Bool
le_dates (date x) (date y) = leb_ℤ x y
le_dates _ _ = false

gt_text : Option String → String → Bool
gt_text none v = false
gt_text (some s) v = text_lt v s

eq_text : Option String → String → Bool
eq_text none v = false
eq_text (some s) v = s == v

unfoldable pub selects : Doc → ℤ → Job → Bool
unfolding le_dates gt_text eq_text
selects empty now j = true
selects (entry k (text v) d) now j = eq_text (text_field k j) v && selects d now j
selects (entry k (object (entry op (array (item a (item b stop))) empty)) d) now j =
    (k == "$expr") && (op == "$lte") && le_dates (eval a now j) (eval b now j) && selects d now j
selects (entry k (object (entry op (text v) empty)) d) now j =
    ((op == "$gt") && gt_text (text_field k j) v) && selects d now j
selects (entry k _ d) now j = false

lt_text : Option String → Option String → Bool
lt_text (some s) (some t) = text_lt s t
lt_text _ _ = false

same_text : Option String → Option String → Bool
same_text (some s) (some t) = s == t
same_text _ _ = true

-- The order by one key of a sort.
key_lt : String → ℤ → Job → Job → Bool
unfolding lt_text
key_lt k dir a b =
    if k == "vstamp"
    then (if ltb_ℤ (pos 0) dir then ltb_ℤ a.vstamp b.vstamp else ltb_ℤ b.vstamp a.vstamp)
    else lt_text (text_field k a) (text_field k b)

key_eq : String → Job → Job → Bool
unfolding same_text
key_eq k a b =
    if k == "vstamp" then eqb_ℤ a.vstamp b.vstamp else same_text (text_field k a) (text_field k b)

unfoldable pub precedes : Doc → Job → Job → Bool
unfolding key_lt key_eq
precedes empty a b = false
precedes (entry k (int dir) d) a b = key_lt k dir a b || key_eq k a b && precedes d a b
precedes (entry k _ d) a b = precedes d a b

-- The collection in memory ignores an assignment that is not of the record's fields.
abbrev pub or_same : Job → Option Job → Job
or_same j none = j
or_same j (some j') = j'

unfoldable pub assigned : Doc → ℤ → Job → Job → Job
assigned empty now o j = j
assigned (entry k v d) now o j = assigned d now o (or_same j (assign k (eval v now o) j))

unfoldable pub updated : Values → ℤ → Job → Job
updated (item (object (entry op (object set) empty)) stop) now j = assigned set now j j
updated _ now j = j

-- A text that does not begin like a variable is none.
ne_variable :
    (s v : String) → starts_with s "$" ≡ false → starts_with v "$" ≡ true → (s == v) ≡ false
ne_variable s v h k = elim (Bool-cases (s == v)) [
  | inl e ↦ absurd (true≢false (sym k ∙ ap (λ x. starts_with x "$") (sym ((eq_iff s v).0 e)) ∙ h))
  | inr n ↦ n
]

pub eval_text_plain :
    (s : String) (now : ℤ) (j : Job) → starts_with s "$" ≡ false → eval (text s) now j ≡ text s
unfolding eval
eval_text_plain s now j h = ground (
  arith,
  ne_variable s "$$NOW" h refl,
  ne_variable s "$visible_at" h refl,
  ne_variable s "$attempts" h refl,
)

pub eval_literal_any : (v : Value) (now : ℤ) (j : Job) → eval (operator "$literal" v) now j ≡ v
unfolding eval
eval_literal_any (array (item a (item b stop))) now j = refl
eval_literal_any _ now j = refl

pub selects_text_any :
    (k v s : String) (d : Doc) (now : ℤ) (j : Job)
    → text_field k j ≡ some s
    → selects (entry k (text v) d) now j ≡ ((s == v) && selects d now j)
unfolding selects
selects_text_any k v s d now j e = rw e

pub selects_gt_any :
    (k v s : String) (d : Doc) (now : ℤ) (j : Job)
    → text_field k j ≡ some s
    → selects (entry k (operator "$gt" (text v)) d) now j ≡ (text_lt v s && selects d now j)
unfolding selects
selects_gt_any k v s d now j e = rw e

text_lt_irrefl : (s : String) → text_lt s s ≡ false
text_lt_irrefl s = ap is_lt (compare_refl s)

pub precedes_tie_any :
    (k s : String) (d : Doc) (a b : Job)
    → text_field k a ≡ some s
    → text_field k b ≡ some s
    → precedes (entry k (int (pos 1)) d) a b ≡ precedes d a b
unfolding precedes key_lt key_eq text_field lt_text same_text
precedes_tie_any k s d a b e f = elim (Bool-cases (k == "vstamp")) [
  | inl v ↦ absurd (no_vstamp (subst (λ x. text_field x a ≡ some s) ((eq_iff k "vstamp").0 v) e))
  | inr n ↦ rw (n, e, f, text_lt_irrefl s, eq_refl s) refl
]
  where
    no_vstamp : none ≡ some s → ⊥
    no_vstamp q = cc

unfoldable pub memory_language : Language
unfolding eval selects precedes assigned updated text_field
memory_language = record {
  eval = eval;
  selects = selects;
  precedes = precedes;
  project = λ d j. j;
  assigned = assigned;
  updated = updated;
  eval_now = λ now j. refl;
  eval_visible_at = λ now j. refl;
  eval_attempts = λ now j. refl;
  eval_text = eval_text_plain;
  eval_int = λ n now j. refl;
  eval_literal = eval_literal_any;
  eval_add_date = λ a b t n now j p q. rw (p, q);
  eval_add_int = λ a b m n now j p q. rw (p, q);
  selects_empty = λ now j. refl;
  selects_text = selects_text_any;
  selects_gt = selects_gt_any;
  selects_expr = λ a b x y d now j p q. rw (p, q);
  precedes_empty = λ a b. refl;
  precedes_vstamp_up = λ d a b. refl;
  precedes_vstamp_down = λ d a b. refl;
  precedes_id = λ d a b. refl;
  precedes_tie = precedes_tie_any;
  project_empty = λ j. refl;
  project_vstamp = λ d j. refl;
  assigned_empty = λ now o j. refl;
  assigned_entry = λ k v d now o j j' e. rw e refl;
  updated_set = λ set now j. refl;
}
