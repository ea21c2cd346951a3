-- ===== src/Server/Answers/Content.antt =====
-- Sending the content of an answer whose header is sent.
use mathlib.Core.Option.{map}
use ens_sysres_proj.Common.{
  ℕ, ◌+◌, ◌<◌, ◌^◌, ◌≡◌, refl, ap, ◌∙◌, ◌≢◌, ◌⊎◌, inl, inr, Bool, true, false, Option, none, some,
  List, [], ◌∷◌, ◌++◌, Bytes, Outcome, ok, ◌>>=◌, in_bounds, >>=-ok, arith, length, le→leb, ◌==◌,
  if◌then◌else◌,
}
use ens_sysres_proj.Cache.{Buffer, null, live, freed}
use ens_sysres_proj.Http.{HttpContent}
use ens_sysres_proj.Http.Header.{room}
use ens_sysres_proj.Http.Answer.Content.{IsContent}
use ens_sysres_proj.Server.{Ptr, null_ptr, Client, World, save}
use ens_sysres_proj.Server.Clients.{remove_client_from_server}
use ens_sysres_proj.Server.Clients.Chain.{Chain-links}
use ens_sysres_proj.Server.Clients.Refines.{
  Represents, settings, Keeps, load-some, write_other, payload,
}
use ens_sysres_proj.Server.Clients.Removal.{remove_client_from_server-Represents}
use ens_sysres_proj.Server.Clients.Updates.{Updates-save, Updates-Represents}
use ens_sysres_proj.Server.Answers.{
  Sent, sent, reset, failed, Opened, Written, send_bytes, remove_and_fail, set_content,
  write_loaded_content, after_sendfile, write_unloaded_content, write_http_content_to_client,
}
use ens_sysres_proj.Server.Answers.Header.{room_left}

-- The client between those of the two lists was removed and freed.
pub record Leaves (w w' : World) (xs : List Ptr) (p : Ptr) (ys : List Ptr) : Type 0 where
  pub clients : Represents w' (xs ++ ys)
  pub gone : w'.heap p ≡ none
  pub others : (q : Ptr) → q ≢ p → Keeps w w' q
  pub same : settings w' ≡ settings w

-- A client that was changed in place before it left.
pub Leaves-save :
    (w w' : World) (xs : List Ptr) (p : Ptr) (ys : List Ptr) (c : Client)
    → Leaves (save w p c) w' xs p ys
    → Leaves w w' xs p ys
Leaves-save w w' xs p ys c leaves = record {
  clients = leaves.clients;
  gone = leaves.gone;
  others = λ q ne. leaves.others q ne ∙ ap (map payload) (write_other w.heap p q (some c) ne);
  same = leaves.same;
}

abbrev with_file_sent : Client → (fd : ℕ) → (out : Bytes) → Client
with_file_sent c fd out = set_content c (record c.http_answer.content {
  file_fd = some fd;
  file_offset = c.http_answer.content.file_offset + length out;
})

-- Nothing changed, or the client left and the answer is not sent.
abbrev pub ContentWritten : World → List Ptr → Ptr → List Ptr → Outcome Written → Type 0
ContentWritten w xs p ys m =
    (w' : World) × (out : Bytes) × (is_sent : Bool) × (m ≡ ok (w', out, is_sent))
    × ((w' ≡ w) ⊎ ((is_sent ≡ false) × Leaves w w' xs p ys))

pub Represents-nonnull :
    (w : World) (xs : List Ptr) (p : Ptr) (ys : List Ptr)
    → Represents w (xs ++ p ∷ ys)
    → p ≢ null_ptr
Represents-nonnull w xs p ys r = (Chain-links w.heap null_ptr xs p ys r.chain).0

module _ (w : World) (xs : List Ptr) (p : Ptr) (ys : List Ptr) (r : Represents w (xs ++ p ∷ ys))
    (small : length (xs ++ p ∷ ys) < 2 ^ 31) where
  pub remove_client_from_server-Leaves :
      (w' : World) × (remove_client_from_server w p ≡ ok w') × Leaves w w' xs p ys
  remove_client_from_server-Leaves =
      let (w', runs, r', gone, others, same) =
        remove_client_from_server-Represents w xs p ys r small in
      (w', runs, record { clients = r'; gone = gone; others = others; same = same })

  pub remove_and_fail-Leaves :
      (w' : World) × (remove_and_fail w p ≡ ok (w', [], false)) × Leaves w w' xs p ys
  remove_and_fail-Leaves =
      let (w', runs, leaves) = remove_client_from_server-Leaves in (w', >>=-ok _ runs refl, leaves)

  -- The same after the client was changed in place.
  pub save-Leaves :
      (c c' : Client)
      → w.heap p ≡ some c
      → c'.previous ≡ c.previous
      → c'.next ≡ c.next
      → (w' : World) × (remove_client_from_server (save w p c') p ≡ ok w') × Leaves w w' xs p ys
  save-Leaves c c' e before after =
      let r1 =
        Updates-Represents w (save w p c') p c c' (xs ++ p ∷ ys) e (Updates-save w p c') before
          after r in
      let (w', runs, r', gone, others, same) =
        remove_client_from_server-Represents (save w p c') xs p ys r1 small in
      (
        w',
        runs,
        Leaves-save w w' xs p ys c'
            (record { clients = r'; gone = gone; others = others; same = same }),
      )

  write_loaded_content-ContentWritten :
      (s : Sent) (content : HttpContent) (b : Buffer)
      → s ≢ failed
      → b ≢ freed
      → ((bytes : Bytes) → b ≡ live bytes → length bytes ≡ content.length)
      → content.offset ≡ 0
      → content.length < 2 ^ 31
      → ContentWritten w xs p ys (write_loaded_content s w p content b)
  unfolding write_loaded_content
  write_loaded_content-ContentWritten s content null ns nf fill start int =
      (w, [], true, refl, inl refl)
  write_loaded_content-ContentWritten s content freed ns nf fill start int = absurd (nf refl)
  write_loaded_content-ContentWritten (sent k) content (live bytes) ns nf fill start int =
      let n : room content.length content.offset ≡ length bytes =
        room_left content.length content.offset (omega arith) int
        ∙ omega (arith, fill bytes refl) in
      (
        w,
        _,
        _,
        >>=-ok _
            (ap (λ (n : ℕ). send_bytes bytes n k) n
              ∙ >>=-ok _ (ap in_bounds (le→leb (length bytes) (length bytes) (omega arith))) refl)
            refl,
        inl refl,
      )
  write_loaded_content-ContentWritten reset content (live bytes) ns nf fill start int =
      let (w', runs, leaves) = remove_and_fail-Leaves in (w', [], false, runs, inr (refl, leaves))
  write_loaded_content-ContentWritten failed content (live bytes) ns nf fill start int =
      absurd (ns refl)

  >>=-ContentWritten :
      {m : Outcome Client} (next : Client → Outcome Written) {c : Client}
      → m ≡ ok c
      → ContentWritten w xs p ys (next c)
      → ContentWritten w xs p ys (m >>= next)
  >>=-ContentWritten {m} next {c} e (w', out, b, runs, rest) =
      (w', out, b, >>=-ok next e runs, rest)

  if-ContentWritten :
      (b : Bool) (m m' : Outcome Written)
      → ContentWritten w xs p ys m
      → ContentWritten w xs p ys m'
      → ContentWritten w xs p ys (if b then m else m')
  if-ContentWritten true m m' h h' = h
  if-ContentWritten false m m' h h' = h'

  module _ (c : Client) (e : w.heap p ≡ some c)
      (full : (c.answer_header_buffer_offset == c.answer_header_buffer_length) ≡ true) where
    pub after_sendfile-Leaves :
        (fd : ℕ) (out : Bytes)
        → (w' : World) × (after_sendfile w p c fd out ≡ ok (w', out, false)) × Leaves w w' xs p ys
    unfolding after_sendfile
    after_sendfile-Leaves fd out =
        let (w', runs, leaves) = save-Leaves c (with_file_sent c fd out) e refl refl in
        (w', rw full (>>=-ok _ runs refl), leaves)

    write_unloaded_content-ContentWritten :
        (o : Opened) (s : Sent) (path : Option Bytes)
        → o ≢ none
        → s ≢ failed
        → ContentWritten w xs p ys (write_unloaded_content o s w p c path)
    unfolding write_unloaded_content
    write_unloaded_content-ContentWritten o s none opened ns = (w, [], true, refl, inl refl)
    write_unloaded_content-ContentWritten none s (some path) opened ns = absurd (opened refl)
    write_unloaded_content-ContentWritten (some f) (sent k) (some path) opened ns =
        let (w', runs, leaves) = after_sendfile-Leaves f.0 _ in
        (w', _, false, runs, inr (refl, leaves))
    write_unloaded_content-ContentWritten (some f) reset (some path) opened ns =
        let (w', runs, leaves) = remove_and_fail-Leaves in (w', [], false, runs, inr (refl, leaves))
    write_unloaded_content-ContentWritten (some f) failed (some path) opened ns = absurd (ns refl)

    pub write_http_content_to_client-ContentWritten :
        (o : Opened) (s : Sent)
        → IsContent c.http_answer.content
        → o ≢ none
        → s ≢ failed
        → ContentWritten w xs p ys (write_http_content_to_client o s w p)
    unfolding write_http_content_to_client
    write_http_content_to_client-ContentWritten o s k opened ns =
        let content = c.http_answer.content in
        >>=-ContentWritten _ (load-some w p (Represents-nonnull w xs p ys r) e) (
          if-ContentWritten content.content_is_loaded _ _
            (write_loaded_content-ContentWritten s content content.body ns k.not_freed k.filled
              k.offset k.length_int)
            (write_unloaded_content-ContentWritten o s content.file_path opened ns))
