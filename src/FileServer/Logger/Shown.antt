-- ===== src/FileServer/Logger/Shown.antt =====
-- What LOGS shows of the line that logger_log has written.
use mathlib.Core.List.{append_assoc}
use ncsc210_g.Base.{
  ℕ, ◌≤◌, ◌≡◌, refl, sym, ap, subst, ◌∙◌, inr, true, Option, none, some, List, [], ◌∷◌, ◌++◌, arith,
  length, pos, codes,
}
use ncsc210_g.FileServer.LogTail.{LogIo, max_tail, read_log_tail}
use ncsc210_g.FileServer.LogTail.Reads.{take_all, Succeeds}
use ncsc210_g.FileServer.LogTail.Lines.{line_ends}
use ncsc210_g.FileServer.Logger.{text_or, field, log_line, logger_log}
use ncsc210_g.FileServer.LogTail.LastLine.{Ended, line_ends-append, last_line_shown}

-- A text without line ends.
abbrev pub OneLine : List ℕ → Type 0
OneLine text = line_ends text ≡ 0

abbrev pub OneLine? : Option (List ℕ) → Type 0
OneLine? none = Unit
OneLine? (some text) = OneLine text

pub text_or-OneLine :
    (text : Option (List ℕ)) (default : List ℕ)
    → OneLine? text
    → OneLine default
    → OneLine (text_or text default)
text_or-OneLine none default f g = g
text_or-OneLine (some text) default f g = f

pub field-line_ends :
    (name text rest : List ℕ)
    → OneLine name
    → OneLine text
    → line_ends (field name text rest) ≡ line_ends rest
unfolding field
field-line_ends name text rest f g =
    omega (arith, f, g, line_ends-append name (text ++ rest), line_ends-append text rest)

-- A line of the log whose fields have no line ends.
log_line-line_ends :
    (ts : List ℕ) (client command target status detail : Option (List ℕ))
    → OneLine ts
    → OneLine? client
    → OneLine? command
    → OneLine? target
    → OneLine? status
    → OneLine? detail
    → line_ends (log_line ts client command target status detail) ≡ 1
unfolding log_line
log_line-line_ends ts client command target status detail f a b c d e =
    let l5 =
      field-line_ends (codes " detail=") (text_or detail (codes "-")) (10 ∷ []) refl
        (text_or-OneLine detail (codes "-") e refl) in
    let r5 = field (codes " detail=") (text_or detail (codes "-")) (10 ∷ []) in
    let l4 =
      field-line_ends (codes " status=") (text_or status (codes "-")) r5 refl
        (text_or-OneLine status (codes "-") d refl) in
    let r4 = field (codes " status=") (text_or status (codes "-")) r5 in
    let l3 =
      field-line_ends (codes " target=") (text_or target (codes "-")) r4 refl
        (text_or-OneLine target (codes "-") c refl) in
    let r3 = field (codes " target=") (text_or target (codes "-")) r4 in
    let l2 =
      field-line_ends (codes " cmd=") (text_or command (codes "unknown")) r3 refl
        (text_or-OneLine command (codes "unknown") b refl) in
    let r2 = field (codes " cmd=") (text_or command (codes "unknown")) r3 in
    let l1 =
      field-line_ends (codes " client=") (text_or client (codes "unknown")) r2 refl
        (text_or-OneLine client (codes "unknown") a refl) in
    let r1 = field (codes " client=") (text_or client (codes "unknown")) r2 in
    let start = line_ends-append ts r1 in start ∙ omega (arith, f, l1, l2, l3, l4, l5)

-- A text that ends with a line end.
abbrev pub EndsLine : List ℕ → Type 0
EndsLine text = (before : List ℕ) × (text ≡ before ++ (10 ∷ []))

pub EndsLine-append : (xs ys : List ℕ) → EndsLine ys → EndsLine (xs ++ ys)
EndsLine-append xs ys (before, e) =
    (xs ++ before, ap (λ y. xs ++ y) e ∙ sym (append_assoc xs before (10 ∷ [])))

pub field-EndsLine : (name text rest : List ℕ) → EndsLine rest → EndsLine (field name text rest)
unfolding field
field-EndsLine name text rest h = EndsLine-append name (text ++ rest) (EndsLine-append text rest h)

log_line-EndsLine :
    (ts : List ℕ) (client command target status detail : Option (List ℕ))
    → EndsLine (log_line ts client command target status detail)
unfolding log_line
log_line-EndsLine ts client command target status detail =
    let e5 = field-EndsLine (codes " detail=") (text_or detail (codes "-")) (10 ∷ []) ([], refl) in
    let e4 = field-EndsLine (codes " status=") (text_or status (codes "-")) _ e5 in
    let e3 = field-EndsLine (codes " target=") (text_or target (codes "-")) _ e4 in
    let e2 = field-EndsLine (codes " cmd=") (text_or command (codes "unknown")) _ e3 in
    let e1 = field-EndsLine (codes " client=") (text_or client (codes "unknown")) _ e2 in
    EndsLine-append ts _ e1

-- What `logger_log` leaves of a log that ends with a line end, when its fields have none, the file can be
-- opened and takes the whole line, and the line is not longer than what LOGS reads: LOGS of one line then
-- shows this line, if its own calls succeed, and the log ends with a line end again.
pub logger_log-read_log_tail :
    (put : ℕ) (ts : List ℕ) (client command target status detail : Option (List ℕ))
    (log after : List ℕ) (io : LogIo)
    → OneLine ts
    → OneLine? client
    → OneLine? command
    → OneLine? target
    → OneLine? status
    → OneLine? detail
    → Ended log
    → length (log_line ts client command target status detail) ≤ put
    → length (log_line ts client command target status detail) ≤ max_tail
    → logger_log true put ts client command target status detail (some log) ≡ some after
    → Succeeds io after
    → (read_log_tail io (pos 1) ≡ some (log_line ts client command target status detail))
      × Ended after
unfolding logger_log
logger_log-read_log_tail put ts client command target status detail log after io f a b c d e ended
      fits short h calls =
    let line = log_line ts client command target status detail in
    let one = log_line-line_ends ts client command target status detail f a b c d e in
    let whole : log ++ line ≡ after = ap (λ x. log ++ x) (sym (take_all put line fits)) ∙ (cc) in
    let ends = log_line-EndsLine ts client command target status detail in
    (
      last_line_shown log line after io ended one short whole calls,
      subst Ended whole (inr (EndsLine-append log line ends)),
    )
