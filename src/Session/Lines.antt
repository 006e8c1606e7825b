-- ===== src/Session/Lines.antt =====
-- What a session writes on its connection: the welcome, and then whole lines.
use mathlib.Core.List.{map-append}
use network_broker.Prelude.{
  ℕ, ◌≡◌, ◌∙◌, refl, sym, ap, Text, some, List, [], ◌∷◌, ◌++◌, map, append-nil, All, All-append,
}
use network_broker.Prelude.Streams.{IsLine}
use network_broker.Client.Sending.{line}
use network_broker.Session
use network_broker.Session.{Session, send, welcome}
use network_broker.Session.Queue
use network_broker.Session.Queue.{
  InOrder, Action, sends, completes, fails, step-InOrder, written-run,
}

-- What has been written and what waits is the welcome and then lines, one to a text.
pub record IsFramed (t : Session) : Type 0 where
  pub lines : List Text
  pub whole : All IsLine lines
  pub texts : t.written ++ t.outgoing ≡ welcome ∷ map line lines
  pub in_order : InOrder t

-- An operation that sends nothing.
kept-IsFramed :
    (a : Action) (t : Session) → Queue.sent (a ∷ []) ≡ [] → IsFramed t → IsFramed (Queue.step a t)
unfolding Queue.run
kept-IsFramed a t quiet h = record {
  lines = h.lines;
  whole = h.whole;
  texts =
      written-run (a ∷ []) t h.in_order
      ∙ ap (λ x. (t.written ++ t.outgoing) ++ x) quiet
      ∙ append-nil (t.written ++ t.outgoing)
      ∙ h.texts;
  in_order = step-InOrder a t h.in_order;
}

pub send-IsFramed :
    (msg : Text) (t : Session) → IsLine msg → IsFramed t → IsFramed (send (line msg) t)
unfolding Queue.run Queue.step Queue.sent
send-IsFramed msg t good h = record {
  lines = h.lines ++ msg ∷ [];
  whole = All-append IsLine h.lines (msg ∷ []) h.whole (good, tt);
  texts =
      written-run (sends (line msg) ∷ []) t h.in_order
      ∙ ap (λ x. x ++ line msg ∷ []) h.texts
      ∙ ap (λ x. welcome ∷ x) (sym (map-append line h.lines (msg ∷ [])));
  in_order = step-InOrder (sends (line msg)) t h.in_order;
}

pub write_done-IsFramed : (t : Session) → IsFramed t → IsFramed (Session.write_done t)
unfolding Queue.step Queue.sent
write_done-IsFramed t h = kept-IsFramed completes t refl h

pub write_failed-IsFramed : (t : Session) → IsFramed t → IsFramed (Session.write_failed t)
unfolding Queue.step Queue.sent
write_failed-IsFramed t h = kept-IsFramed fails t refl h

pub close-IsFramed : (t : Session) → IsFramed t → IsFramed (Session.close t)
unfolding Session.close
close-IsFramed t h = record {
  lines = h.lines;
  whole = h.whole;
  texts = h.texts;
  in_order = h.in_order;
}

pub reads-IsFramed : (n : ℕ) (t : Session) → IsFramed t → IsFramed (record t { pending_reads = n })
reads-IsFramed n t h = record {
  lines = h.lines;
  whole = h.whole;
  texts = h.texts;
  in_order = h.in_order;
}

pub accepted-IsFramed :
    (id : ℕ) → IsFramed (Session.start (Session.set_self (some id) (Session.new id)))
unfolding Session.start Session.set_self Session.new
accepted-IsFramed id = record { lines = []; whole = tt; texts = refl; in_order = (refl, [], refl) }
