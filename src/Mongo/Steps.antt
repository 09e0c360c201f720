-- ===== src/Mongo/Steps.antt =====
-- How a `$set` stage runs, an assignment at a time.
use mongoqueue.Base.{some, String, ◌≡◌, ap, ◌∙◌}
use mongoqueue.Base.Int.{ℤ, ◌+ℤ◌}
use mongoqueue.Bson.{Value, text, int, date, Doc, entry}
use mongoqueue.Job.{Job, assign}
use mongoqueue.Mongo.Language.{Language, operator, pair}

module _ (l : Language) where
  -- One assignment, its expression and its result known.
  pub assigned_step :
      (k : String) {v w : Value} (d : Doc) (now : ℤ) (o j : Job) {j' : Job}
      → l.eval v now o ≡ w
      → assign k w j ≡ some j'
      → l.assigned (entry k v d) now o j ≡ l.assigned d now o j'
  assigned_step k d now o j {j'} e f =
      l.assigned_entry k _ d now o j j' (ap (λ x. assign k x j) e ∙ f)

  -- `$$NOW` plus a number of milliseconds.
  pub eval_now_plus :
      (n now : ℤ) (j : Job)
      → l.eval (operator "$add" (pair (text "$$NOW") (int n))) now j ≡ date (now +ℤ n)
  eval_now_plus n now j = l.eval_add_date _ _ now n now j (l.eval_now now j) (l.eval_int n now j)

  pub eval_attempts_plus :
      (n now : ℤ) (j : Job)
      → l.eval (operator "$add" (pair (text "$attempts") (int n))) now j ≡ int (j.attempts +ℤ n)
  eval_attempts_plus n now j =
      l.eval_add_int _ _ j.attempts n now j (l.eval_attempts now j) (l.eval_int n now j)
