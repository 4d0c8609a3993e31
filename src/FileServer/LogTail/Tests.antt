-- ===== src/FileServer/LogTail/Tests.antt =====
-- The tail of a short log.
use ncsc210_g.Base.{ℕ, ◌≡◌, refl, true, some, List, [], ◌∷◌, pos}
use ncsc210_g.FileServer.LogTail.{LogFile, opened, missing, LogIo, read_log_tail}

abbrev three : List ℕ
three = b'a' ∷ 10 ∷ b'b' ∷ 10 ∷ b'c' ∷ 10 ∷ []

abbrev working : LogFile → LogIo
working f = record {
  fopen = f;
  seek_end = true;
  ftell = true;
  seek_back = true;
  seek_start = true;
  malloc = λ n. true;
}

tail_two : read_log_tail (working (opened three)) (pos 2) ≡ some (b'b' ∷ 10 ∷ b'c' ∷ 10 ∷ [])
unfolding read_log_tail
tail_two = refl

tail_all : read_log_tail (working (opened three)) (pos 0) ≡ some three
unfolding read_log_tail
tail_all = refl

tail_missing : read_log_tail (working missing) (pos 2) ≡ some []
unfolding read_log_tail
tail_missing = refl
