-- ===== src/FileServer/Reply/Tests.antt =====
-- A reply of several parts, sent in pieces.
use ncsc210_g.Base.{◌≡◌, refl, some, List, [], ◌∷◌, arith, All, codes}
use ncsc210_g.FileServer.Reply.{
  Reply, simple, bulk, null_bulk, SendResult, accepts, interrupted, broken, send_all, send_reply,
}
use ncsc210_g.FileServer.Reply.Sent.{IsReply}
use ncsc210_g.FileServer.Reply.Read.{read_replies, send_replies, read_replies-send_replies}
use ncsc210_g.FileServer.Resp.Number.{decimal}

abbrev replies : List Reply
replies = simple (codes "OK") ∷ bulk (codes "ab") ∷ null_bulk ∷ []

abbrev pieces : List SendResult
pieces = accepts 2 ∷ interrupted ∷ accepts 1 ∷ accepts 9 ∷ interrupted ∷ []

bulk_bytes :
    (send_reply (bulk (codes "ab")) (record { out = []; sends = pieces })).1.out
    ≡ b'$' ∷ b'2' ∷ 13 ∷ 10 ∷ b'a' ∷ b'b' ∷ 13 ∷ 10 ∷ []
unfolding send_reply decimal send_all
bulk_bytes = refl

breaks_off :
    (send_reply null_bulk (record { out = []; sends = accepts 2 ∷ broken ∷ [] })).1.out
    ≡ b'$' ∷ b'-' ∷ []
unfolding send_reply send_all
breaks_off = refl

replies-IsReply : All IsReply replies
replies-IsReply = (
  (
    (
      ((λ h. omega (arith, h)), (λ h. omega (arith, h))),
      (((λ h. omega (arith, h)), (λ h. omega (arith, h))), tt),
    ),
    omega arith,
  ),
  (omega arith, (tt, tt)),
)

read_replies-send_replies_example :
    read_replies 3 (send_replies replies (record { out = []; sends = pieces })).out
    ≡ some (replies, [])
read_replies-send_replies_example = read_replies-send_replies replies pieces replies-IsReply tt
