-- ===== src/Middleware/Logging.antt =====
-- app/backend/internal/middleware/logging.go: the ResponseWriter that records the status. Of the log
-- line, the status is modelled.
use sakura_intern_team_e.Prelude.{ℕ, Option, none, some, get_or}
use sakura_intern_team_e.Http.{Writer}

-- statusRecoder, with the state of the writer that it wraps
pub record Recorder (S : Type 0) : Type 0 where
  pub inner : S
  pub status : ℕ

module _ {S : Type 0} where
  -- Flush of a writer that need not implement http.Flusher
  abbrev pub flush_if_able : Writer S → S → S
  flush_if_able conn = get_or (λ s. s) conn.flush

  -- The methods of statusRecoder: Write and Header are those of the wrapped writer.
  unfoldable pub recorder : Writer S → Writer (Recorder S)
  recorder conn = record {
    set_header = λ name value r. record r { inner = conn.set_header name value r.inner };
    write_header = λ code r. record { inner = conn.write_header code r.inner; status = code };
    write = λ c r. record r { inner = conn.write c r.inner };
    flush = some (λ r. record r { inner = flush_if_able conn r.inner });
  }

module _ {A S : Type 0} where
  abbrev pub log_status : Option (A × Recorder S) → Option (A × S × ℕ)
  log_status none = none
  log_status (some (a, r)) = some (a, r.inner, r.status)

  -- Logging: what the next handler leaves behind, and the status in the log. A panic of the next
  -- handler logs nothing.
  unfoldable pub logging :
      (Writer (Recorder S) → Recorder S → Option (A × Recorder S))
      → Writer S
      → S
      → Option (A × S × ℕ)
  unfolding recorder
  logging next conn s = log_status (next (recorder conn) (record { inner = s; status = 200 }))
