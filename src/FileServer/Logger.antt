-- ===== src/FileServer/Logger.antt =====
-- The audit log of G16_Project_3/src/logger.c. The time is a parameter, as the text that strftime makes of
-- it; a call holds g_log_mutex.
mod Tests
pub mod Forged
pub mod Shown
use ncsc210_g.Base.{
  ℕ, ◌-◌, Bool, Option, none, some, List, [], ◌∷◌, ◌++◌, if◌then◌else◌, take, codes,
}
use ncsc210_g.FileServer.Disk.{path_max}

-- What snprintf leaves in g_log_path.
unfoldable pub logger_init : (data_dir : List ℕ) → List ℕ
logger_init data_dir = take (path_max - 1) (data_dir ++ codes "/operations.log")

-- A null pointer is replaced by a text.
abbrev pub text_or : Option (List ℕ) → List ℕ → List ℕ
text_or none default = default
text_or (some text) default = text

-- A name with its text, and what follows.
pub field : (name text rest : List ℕ) → List ℕ
field name text rest = name ++ (text ++ rest)

pub log_line : (ts : List ℕ) (client command target status detail : Option (List ℕ)) → List ℕ
unfolding field
log_line ts client command target status detail =
    ts
    ++ field (codes " client=") (text_or client (codes "unknown")) (
        field (codes " cmd=") (text_or command (codes "unknown")) (
          field (codes " target=") (text_or target (codes "-")) (
            field (codes " status=") (text_or status (codes "-"))
              (field (codes " detail=") (text_or detail (codes "-")) (10 ∷ [])))))

-- The log before and after; `none` is no file. `opens` says whether fopen succeeds, and `put` how many
-- bytes of the line get into the file at most.
unfoldable pub logger_log :
    (opens : Bool) (put : ℕ) (ts : List ℕ) (client command target status detail : Option (List ℕ))
    → Option (List ℕ)
    → Option (List ℕ)
unfolding log_line
logger_log opens put ts client command target status detail log =
    if opens
    then some (text_or log [] ++ take put (log_line ts client command target status detail))
    else log
