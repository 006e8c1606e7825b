-- ===== src/ConsoleClient/Reception.antt =====
-- The whole way from the server's sessions to a screen: app/src/server/server.cpp, session.cpp and
-- client/main.cpp.
use network_broker.Prelude.{
  ℕ, ◌≡◌, ◌∙◌, ◌⊎◌, inl, inr, refl, ap, Text, false, true, none, some, List, [], ◌∷◌, ◌++◌, map,
  append-nil, All, nat_eq, arith,
}
use network_broker.Prelude.Assoc.{find}
use network_broker.Prelude.Streams.{IsLine}
use network_broker.Prelude.Cut.{full_lines, cut}
use network_broker.Session.{Session, welcome}
use network_broker.Session.Lines.{IsFramed}
use network_broker.Repository.{ClientRepository, TopicRepository}
use network_broker.Broker.Buffers.{AllWaiting}
use network_broker.Server.{Server}
use network_broker.Server.Reach.{Reach}
use network_broker.Server.Framing.Reached.{Reach-AllFramed}
use network_broker.ConsoleClient.{Console, is_waiting, connected_to, run, Steps}
use network_broker.ConsoleClient.Printing.{shown_all, Steps-printed}
use network_broker.ConsoleClient.Conversation.{bytes_of, as_text, welcome_lines, welcome-shown}

-- The first of some texts of one line each.
first_lines :
    (texts rest lines : List Text)
    → All IsLine lines
    → texts ++ rest ≡ map as_text lines
    → (ks : List Text) × (texts ≡ map as_text ks) × All IsLine ks
first_lines [] rest lines whole e = ([], refl, tt)
first_lines (text ∷ texts) rest [] whole e = absurd (ground (arith, e))
first_lines (text ∷ texts) rest (l ∷ lines) whole e =
    let (ks, same, good) = first_lines texts rest lines whole.1 (ground (arith, e)) in
    (l ∷ ks, ground (arith, e, same), (whole.0, good))

-- What has been written, of the welcome and texts of one line each.
written_lines :
    (written rest lines : List Text)
    → All IsLine lines
    → written ++ rest ≡ welcome ∷ map as_text lines
    → (written ≡ []) ⊎ ((ks : List Text) × (written ≡ welcome ∷ map as_text ks) × All IsLine ks)
written_lines [] rest lines whole e = inl refl
written_lines (text ∷ written) rest lines whole e =
    let (ks, same, good) = first_lines written rest lines whole (ground (arith, e)) in
    inr (ks, ground (arith, e, same), good)

module _ {ClientDb TopicDb : Type 0} (client_repo : ClientRepository ClientDb)
    (topic_repo : TopicRepository TopicDb) where
  -- Take any state that the server reaches from one that has no session yet and whose waiting messages
  -- are lines, a session of that state, and a console client that has received all that the session has
  -- written, in whatever pieces, and has printed what it can. If nothing has been written yet, the client
  -- shows that it is connected and no more. Otherwise the session has written the welcome and then some
  -- texts of one line each, and the client shows the four lines of the welcome and those lines, in their
  -- order, each as one line of the server.
  pub Reach-shown :
      (s s' : Server ClientDb TopicDb) (p : ℕ) (t : Session) (host port input : Text) (c : Console)
      → s.world.sessions ≡ []
      → AllWaiting IsLine s.world
      → Reach client_repo topic_repo s s'
      → find p s'.world.sessions ≡ some t
      → Steps (run host port input none) (bytes_of t.written) c
      → (c.is_reading ≡ false) ⊎ (is_waiting c ≡ true)
      → ((t.written ≡ []) × (c.out ≡ connected_to host port))
        ⊎ ((lines : List Text) × (t.written ≡ welcome ∷ map as_text lines)
            × All IsLine lines
            × (c.out ≡ connected_to host port ++ shown_all (welcome_lines ++ lines)))
  unfolding bytes_of shown_all cut
  Reach-shown s s' p t host port input c none_yet waiting reached there steps idle =
      let all = Reach-AllFramed client_repo topic_repo s s' none_yet waiting reached in
      let framed : IsFramed t = all.sessions p t there in
      let printed = Steps-printed host port input (bytes_of t.written) c steps idle in
      elim (written_lines t.written t.outgoing framed.lines framed.whole framed.texts) [
        | inl quiet ↦ inl (
          quiet,
          printed
              ∙ ap (λ x. connected_to host port ++ shown_all (full_lines (bytes_of x))) quiet
              ∙ append-nil (connected_to host port),
        )
        | inr (lines, same, good) ↦ inr (
          lines,
          same,
          good,
          printed
              ∙ ap (λ x. connected_to host port ++ shown_all (full_lines (bytes_of x))) same
              ∙ ap (λ x. connected_to host port ++ shown_all x) (welcome-shown lines good),
        )
      ]
