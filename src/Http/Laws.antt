-- ===== src/Http/Laws.antt =====
-- What a response keeps and what reaches the client.
use restconf.Prelude.{ℕ, ◌≡◌, refl, ap, none, some, [], ◌∷◌, ◌++◌, arith, if◌then◌else◌}
use restconf.Prelude.{Option-cases, ◌++◌, inl, inr, List, Option, none, some, ◌∙◌, ◌∷◌, []}
use restconf.Http.{put, http_error}
use restconf.Text.{Bytes, codes, beq}
use restconf.Text.Laws.{beq_iff, beq_self}
use restconf.Errors.{Error, Fc}
use restconf.Compliance.{ComplianceOptions}
use restconf.Http.{Headers, Request, Response, get, set, set_header, write_header, write}
use restconf.Http.Report.{Encoders, message, report}

pub get-set : (h : Headers) (k j v : Bytes) → get (set h k v) j ≡ (if beq k j then v else get h j)
unfolding get set
get-set [] k j v = refl
get-set ((i, w) ∷ h) k j v = ground (arith, get-set h k j v, beq_iff i k, beq_iff i j, beq_iff k j)

-- Nothing was sent yet, and no write is going to fail.
pub record IsUnsent (w : Response) : Type 0 where
  pub unsent : w.status ≡ none
  pub nothing : w.body ≡ []
  pub unbroken : w.faults ≡ []

put-status :
    (fs : List (Option Error)) (p : Bytes) (w : Response) → (put fs p w).1.status ≡ w.status
unfolding put
put-status [] p w = refl
put-status (none ∷ fs) p w = refl
put-status (some e ∷ fs) p w = refl

-- A write does not change a status that was sent.
write-status :
    (p : Bytes) (w : Response) (code : ℕ) → w.status ≡ some code → (write p w).1.status ≡ some code
unfolding write write_header
write-status p w code h = put-status w.faults p (write_header 200 w) ∙ rw h refl

-- http.Error on a response that is not begun decides its status.
pub http_error-status :
    (message : Bytes) (code : ℕ) (w : Response)
    → w.status ≡ none
    → (http_error message code w).status ≡ some code
unfolding http_error write_header set_header
http_error-status text code w h =
    write-status (text ++ b'\n' ∷ [])
      (write_header code (
        set_header (codes "X-Content-Type-Options") (codes "nosniff")
          (set_header (codes "Content-Type") (codes "text/plain; charset=utf-8") w)))
      code (rw h refl)

-- The connection does not break.
abbrev pub IsUnbroken : Response → Type 0
IsUnbroken w = w.faults ≡ []

-- On such a connection a write adds its bytes to the body.
pub write_lem :
    (p : Bytes) (w : Response)
    → IsUnbroken w
    → ((write p w).0 ≡ none) × (IsUnbroken (write p w).1 × ((write p w).1.body ≡ w.body ++ p))
unfolding write write_header
write_lem p w h = elim (Option-cases w.status) [
  | inl e ↦ rw (h, e) (refl, (refl, refl))
  | inr (code, e) ↦ rw (h, e) (refl, (refl, refl))
]

module _ (fc : Fc) (encoders : Encoders) where
  pub report_lem :
      (compliance : ComplianceOptions) (e : Error) (r : Request) (mime : Bytes) (w : Response)
      → IsUnsent w
      → (report fc encoders compliance e r mime w).status ≡ some (fc.http_status_code e)
        × (report fc encoders compliance e r mime w).body
          ≡ message fc encoders compliance e r mime ++ b'\n' ∷ []
        × get (report fc encoders compliance e r mime w).sent_header (codes "Content-Type") ≡ mime
  unfolding report write write_header set_header
  report_lem compliance e r mime w u =
      let typed : Headers = set w.header (codes "Content-Type") mime in
      (
        ground arith,
        ground (
          arith,
          ap (λ (b : Bytes). b ++ (message fc encoders compliance e r mime ++ b'\n' ∷ []))
              u.nothing,
        ),
        ground (
          arith,
          get-set typed (codes "X-Content-Type-Options") (codes "Content-Type") (codes "nosniff"),
          get-set w.header (codes "Content-Type") (codes "Content-Type") mime,
          beq_self (codes "Content-Type"),
          beq_iff (codes "X-Content-Type-Options") (codes "Content-Type"),
        ),
      )

  -- Reported after the header was sent, an error leaves the status as it was.
  pub report_late :
      (compliance : ComplianceOptions) (e : Error) (r : Request) (mime : Bytes) (w : Response)
      (code : ℕ)
      → w.status ≡ some code
      → ((report fc encoders compliance e r mime w).status ≡ some code)
        × ((report fc encoders compliance e r mime w).sent_header ≡ w.sent_header)
  unfolding report write write_header set_header
  report_late compliance e r mime w code h = ground arith
