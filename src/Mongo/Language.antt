-- ===== src/Mongo/Language.antt =====
-- The parts of the query language that the queue uses: filters, sorts, projections and `$set`
-- stages, each read against a stored job at a server time.
use package.text.Mathlib.Text.{starts_with}
use mongoqueue.Base.{String, text_lt, ◌≡◌, Bool, true, false, ◌&&◌, ◌||◌, some, ◌==◌}
use mongoqueue.Base.Int.{ℤ, pos, negsuc, ◌+ℤ◌, ltb_ℤ, leb_ℤ, eqb_ℤ}
use mongoqueue.Bson.{
  Value, text, int, date, object, array, Doc, empty, entry, Values, stop, item, set_pipeline,
}
use mongoqueue.Job.{Job, text_field, assign}

abbrev pub operator : String → Value → Value
operator name v = object (entry name v empty)

abbrev pub pair : Value → Value → Value
pair a b = array (item a (item b stop))

pub record Language : Type 0 where
  -- the value of an aggregation expression
  pub eval : Value → ℤ → Job → Value
  -- whether a filter matches
  pub selects : Doc → ℤ → Job → Bool
  -- whether a sort puts one job strictly before another
  pub precedes : Doc → Job → Job → Bool
  pub project : Doc → Job → Job
  -- the assignments of a `$set` stage to a job, their expressions read against another
  pub assigned : Doc → ℤ → Job → Job → Job
  -- a job after an update pipeline
  pub updated : Values → ℤ → Job → Job
  pub eval_now : (now : ℤ) (j : Job) → eval (text "$$NOW") now j ≡ date now
  pub eval_visible_at : (now : ℤ) (j : Job) → eval (text "$visible_at") now j ≡ date j.visible_at
  pub eval_attempts : (now : ℤ) (j : Job) → eval (text "$attempts") now j ≡ int j.attempts
  pub eval_text :
      (s : String) (now : ℤ) (j : Job) → starts_with s "$" ≡ false → eval (text s) now j ≡ text s
  pub eval_int : (n now : ℤ) (j : Job) → eval (int n) now j ≡ int n
  pub eval_literal : (v : Value) (now : ℤ) (j : Job) → eval (operator "$literal" v) now j ≡ v
  pub eval_add_date :
      (a b : Value) (t n now : ℤ) (j : Job)
      → eval a now j ≡ date t
      → eval b now j ≡ int n
      → eval (operator "$add" (pair a b)) now j ≡ date (t +ℤ n)
  pub eval_add_int :
      (a b : Value) (m n now : ℤ) (j : Job)
      → eval a now j ≡ int m
      → eval b now j ≡ int n
      → eval (operator "$add" (pair a b)) now j ≡ int (m +ℤ n)
  pub selects_empty : (now : ℤ) (j : Job) → selects empty now j ≡ true
  pub selects_text :
      (k v s : String) (d : Doc) (now : ℤ) (j : Job)
      → text_field k j ≡ some s
      → selects (entry k (text v) d) now j ≡ ((s == v) && selects d now j)
  pub selects_gt :
      (k v s : String) (d : Doc) (now : ℤ) (j : Job)
      → text_field k j ≡ some s
      → selects (entry k (operator "$gt" (text v)) d) now j ≡ (text_lt v s && selects d now j)
  pub selects_expr :
      (a b : Value) (x y : ℤ) (d : Doc) (now : ℤ) (j : Job)
      → eval a now j ≡ date x
      → eval b now j ≡ date y
      → selects (entry "$expr" (operator "$lte" (pair a b)) d) now j
        ≡ (leb_ℤ x y && selects d now j)
  pub precedes_empty : (a b : Job) → precedes empty a b ≡ false
  pub precedes_vstamp_up :
      (d : Doc) (a b : Job)
      → precedes (entry "vstamp" (int (pos 1)) d) a b
        ≡ (ltb_ℤ a.vstamp b.vstamp || eqb_ℤ a.vstamp b.vstamp && precedes d a b)
  pub precedes_vstamp_down :
      (d : Doc) (a b : Job)
      → precedes (entry "vstamp" (int (negsuc 0)) d) a b
        ≡ (ltb_ℤ b.vstamp a.vstamp || eqb_ℤ a.vstamp b.vstamp && precedes d a b)
  pub precedes_id :
      (d : Doc) (a b : Job)
      → precedes (entry "_id" (int (pos 1)) d) a b
        ≡ (text_lt a.id b.id || (a.id == b.id) && precedes d a b)
  pub precedes_tie :
      (k s : String) (d : Doc) (a b : Job)
      → text_field k a ≡ some s
      → text_field k b ≡ some s
      → precedes (entry k (int (pos 1)) d) a b ≡ precedes d a b
  pub project_empty : (j : Job) → project empty j ≡ j
  pub project_vstamp :
      (d : Doc) (j : Job) → (project (entry "vstamp" (int (pos 1)) d) j).vstamp ≡ j.vstamp
  pub assigned_empty : (now : ℤ) (o j : Job) → assigned empty now o j ≡ j
  pub assigned_entry :
      (k : String) (v : Value) (d : Doc) (now : ℤ) (o j j' : Job)
      → assign k (eval v now o) j ≡ some j'
      → assigned (entry k v d) now o j ≡ assigned d now o j'
  pub updated_set :
      (set : Doc) (now : ℤ) (j : Job) → updated (set_pipeline set) now j ≡ assigned set now j j
