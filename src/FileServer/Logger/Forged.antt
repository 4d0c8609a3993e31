-- ===== src/FileServer/Logger/Forged.antt =====
-- A line end in a field of the audit log.
use mathlib.Core.List.{append_assoc}
use ncsc210_g.Base.{
  ℕ, ◌≤◌, ◌≡◌, refl, sym, ap, ◌∙◌, inr, true, Option, some, List, [], ◌∷◌, ◌++◌, arith, length, pos,
  codes,
}
use ncsc210_g.FileServer.LogTail.{LogIo, max_tail, read_log_tail}
use ncsc210_g.FileServer.LogTail.Reads.{take_all, Succeeds}
use ncsc210_g.FileServer.LogTail.Lines.{line_ends}
use ncsc210_g.FileServer.Logger.{text_or, field, log_line, logger_log}
use ncsc210_g.FileServer.LogTail.LastLine.{line_ends-append, last_line_shown}
use ncsc210_g.FileServer.Logger.Shown.{
  OneLine, OneLine?, text_or-OneLine, field-line_ends, EndsLine, EndsLine-append, field-EndsLine,
}

-- What follows the target on a line.
abbrev pub line_tail : (status detail : Option (List ℕ)) → List ℕ
line_tail status detail =
    field (codes " status=") (text_or status (codes "-"))
      (field (codes " detail=") (text_or detail (codes "-")) (10 ∷ []))

-- What stands on a line in front of a line end in the target, and this line end.
abbrev line_head : (ts : List ℕ) (client command : Option (List ℕ)) (target : List ℕ) → List ℕ
line_head ts client command target =
    ts
    ++ field (codes " client=") (text_or client (codes "unknown")) (
        field (codes " cmd=") (text_or command (codes "unknown"))
          (field (codes " target=") target (10 ∷ [])))

log_line-cut :
    (ts : List ℕ) (client command : Option (List ℕ)) (target forged : List ℕ)
    (status detail : Option (List ℕ))
    → log_line ts client command (some (target ++ 10 ∷ forged)) status detail
      ≡ line_head ts client command target ++ (forged ++ line_tail status detail)
unfolding log_line field
log_line-cut ts client command target forged status detail = simp (append_assoc)

line_head-EndsLine :
    (ts : List ℕ) (client command : Option (List ℕ)) (target : List ℕ)
    → EndsLine (line_head ts client command target)
line_head-EndsLine ts client command target =
    let e3 = field-EndsLine (codes " target=") target (10 ∷ []) ([], refl) in
    let e2 = field-EndsLine (codes " cmd=") (text_or command (codes "unknown")) _ e3 in
    let e1 = field-EndsLine (codes " client=") (text_or client (codes "unknown")) _ e2 in
    EndsLine-append ts _ e1

line_tail-line_ends :
    (forged : List ℕ) (status detail : Option (List ℕ))
    → OneLine forged
    → OneLine? status
    → OneLine? detail
    → line_ends (forged ++ line_tail status detail) ≡ 1
line_tail-line_ends forged status detail f d e =
    let r5 = field (codes " detail=") (text_or detail (codes "-")) (10 ∷ []) in
    let l5 =
      field-line_ends (codes " detail=") (text_or detail (codes "-")) (10 ∷ []) refl
        (text_or-OneLine detail (codes "-") e refl) in
    let l4 =
      field-line_ends (codes " status=") (text_or status (codes "-")) r5 refl
        (text_or-OneLine status (codes "-") d refl) in
    line_ends-append forged (line_tail status detail) ∙ omega (arith, f, l4, l5)

-- The target of a call is logged as the client sent it. Where it has a line end, with the text `forged`
-- behind it, LOGS of one line then shows a line that begins with `forged`, in place of a time and a client,
-- whatever was in the log before.
pub logger_log-forged :
    (put : ℕ) (ts : List ℕ) (client command : Option (List ℕ)) (target forged : List ℕ)
    (status detail : Option (List ℕ)) (log after : List ℕ) (io : LogIo)
    → OneLine forged
    → OneLine? status
    → OneLine? detail
    → length (log_line ts client command (some (target ++ 10 ∷ forged)) status detail) ≤ put
    → length (forged ++ line_tail status detail) ≤ max_tail
    → logger_log true put ts client command (some (target ++ 10 ∷ forged)) status detail (some log)
      ≡ some after
    → Succeeds io after
    → read_log_tail io (pos 1) ≡ some (forged ++ line_tail status detail)
unfolding logger_log
logger_log-forged put ts client command target forged status detail log after io f d e fits short h
      calls =
    let line = log_line ts client command (some (target ++ 10 ∷ forged)) status detail in
    let head = line_head ts client command target in
    let tail = forged ++ line_tail status detail in
    let whole : log ++ line ≡ after = ap (λ x. log ++ x) (sym (take_all put line fits)) ∙ (cc) in
    let parts : (log ++ head) ++ tail ≡ after =
      append_assoc log head tail
      ∙ ap (λ x. log ++ x) (sym (log_line-cut ts client command target forged status detail))
      ∙ whole in
    last_line_shown (log ++ head) tail after io
      (inr (EndsLine-append log head (line_head-EndsLine ts client command target)))
      (line_tail-line_ends forged status detail f d e) short parts calls
