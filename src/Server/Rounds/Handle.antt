-- ===== src/Server/Rounds/Handle.antt =====
-- One client is handled by the loop, in a step of the automaton.
use ens_sysres_proj.Common.{
  ℕ, ◌≡◌, refl, ap, sym, subst, ◌∙◌, inl, Bool, true, false, Option, none, some, List, ◌∷◌, ◌++◌,
  Outcome, ok, ◌>>=◌, >>=-ok, if◌then◌else◌,
}
use ens_sysres_proj.Cache.{FileCache, Folder}
use ens_sysres_proj.Server.{
  ClientState, waiting_for_request, processing_request, answering, Ptr, Client, World,
}
use ens_sysres_proj.Server.Clients.{remove_client_from_server}
use ens_sysres_proj.Server.Rounds.{Ready, handle_client}
use ens_sysres_proj.Server.Rounds.Good.{IsGood}
use ens_sysres_proj.Server.Rounds.Valid.{IsServer}
use ens_sysres_proj.Server.Rounds.Moves.{Moves, hangs_up, stays, reads, writes, is_served}
use ens_sysres_proj.Server.Rounds.Step.{
  Stepped, removed-Stepped, read_from_client-Stepped, write_to_client-Stepped,
}

module _ (cache : FileCache) (root : Folder) (w : World) (xs : List Ptr) (p : Ptr) (ys : List Ptr)
    (c : Client) (r : IsServer cache root w (xs ++ p ∷ ys)) (at : w.heap p ≡ some c) (e : Ready)
    (good : IsGood w.server.parameters e) where
  abbrev pub HandledOk : Outcome (World × ℕ) → Type 0
  HandledOk m =
      (w' : World) × (n : ℕ) × (m ≡ ok (w', n))
      × Stepped cache root w xs p ys w'
      × Moves cache w.server.parameters e good.bytes c n (w'.heap p)

  if-HandledOk :
      (b : Bool) (m m' : Outcome (World × ℕ))
      → (b ≡ true → HandledOk m)
      → (b ≡ false → HandledOk m')
      → HandledOk (if b then m else m')
  if-HandledOk true m m' h h' = h refl
  if-HandledOk false m m' h h' = h' refl

  stays-HandledOk : e.poll_hup ≡ false → is_served e c.state ≡ false → HandledOk (ok (w, 0))
  stays-HandledOk hup served = (
    w,
    0,
    refl,
    (refl, λ q ne. refl, inl r),
    subst (Moves cache w.server.parameters e good.bytes c 0) (sym at) (stays hup served),
  )

  removed-HandledOk :
      e.poll_hup ≡ true → HandledOk (do w ← remove_client_from_server w p; ok (w, 0))
  removed-HandledOk hup =
      let (w', runs, ends, gone) = removed-Stepped cache root w xs p ys c r at in
      (
        w',
        0,
        >>=-ok _ runs refl,
        ends,
        subst (Moves cache w.server.parameters e good.bytes c 0) (sym gone) (hangs_up hup),
      )

  pub handle_client-HandledOk :
      (s : Option ClientState) → c.state ≡ s → HandledOk (handle_client e w p s)
  unfolding handle_client
  handle_client-HandledOk (some waiting_for_request) state =
      let (w', runs, ends, is) = read_from_client-Stepped cache root w xs p ys c r at e good in
      if-HandledOk e.poll_hup _ _ removed-HandledOk λ hup.
        if-HandledOk e.poll_in _ _
          (λ arrives. (w', 1, >>=-ok _ runs refl, ends, reads hup state arrives is))
          (λ nothing. stays-HandledOk hup (ap (is_served e) state ∙ nothing))
  handle_client-HandledOk (some answering) state =
      let (w', head, body, runs, ends, is) =
        write_to_client-Stepped cache root w xs p ys c r at e good state in
      if-HandledOk e.poll_hup _ _ removed-HandledOk λ hup.
        if-HandledOk e.poll_out _ _
          (λ takes. (w', 1, >>=-ok _ runs refl, ends, writes hup state takes is))
          (λ nothing. stays-HandledOk hup (ap (is_served e) state ∙ nothing))
  handle_client-HandledOk (some processing_request) state =
      if-HandledOk e.poll_hup _ _ removed-HandledOk
        (λ hup. stays-HandledOk hup (ap (is_served e) state))
  handle_client-HandledOk none state =
      if-HandledOk e.poll_hup _ _ removed-HandledOk
        (λ hup. stays-HandledOk hup (ap (is_served e) state))
