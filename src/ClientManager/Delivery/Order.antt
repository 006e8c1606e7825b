-- ===== src/ClientManager/Delivery/Order.antt =====
-- The order in which `SendTopicMessage` goes through the ids, which for a std::unordered_set is not
-- specified: app/src/clients/clients_manager.cpp.
use mathlib.Core.List.{Permᴰ}
use network_broker.Prelude.{
  ℕ, ◌≡◌, ◌∙◌, refl, sym, ap, Text, Bool, true, false, List, ◌∷◌, none, some, nat_eq, nat_beq,
  nat_beq_iff, arith, Bool-cases, Option-cases, inl, inr, if◌then◌else◌,
}
use network_broker.Prelude.Assoc.{find, assign, find-assign, assign_comm}
use network_broker.Prelude.IdSet.{contains, NoRepeat}
use network_broker.Prelude.IdSet.Order.{NoRepeat-Permᴰ}
use network_broker.Session.{send}
use network_broker.Client
use network_broker.Client.{Heap, SessionWeakPtr, send_to}
use network_broker.Client.Sending.{line}
use network_broker.ClientManager.{Clients, deliver, deliver_all}
use network_broker.ClientManager.Delivery.{is_online, is_online-deliver, find-deliver}

-- One text into two queues, which may be the same one.
send_to_comm :
    (p q : SessionWeakPtr) (msg : Text) (h : Heap)
    → send_to p msg (send_to q msg h) ≡ send_to q msg (send_to p msg h)
unfolding send_to
send_to_comm none q msg h = refl
send_to_comm (some p) none msg h = refl
send_to_comm (some p) (some q) msg h = elim (Bool-cases (nat_beq p q)) [
  | inl same ↦
      ap (λ x. send_to (some p) msg (send_to x msg h)) (ap some (sym ((nat_beq_iff p q).0 same)))
      ∙ ap (λ x. send_to x msg (send_to (some p) msg h)) (ap some ((nat_beq_iff p q).0 same))
  | inr apart ↦ elim (Option-cases (find p h)) [
    | inl e ↦ elim (Option-cases (find q h)) [
      | inl f ↦ ground (arith, e, f)
      | inr (t, f) ↦ ground (arith, e, f, apart, find-assign q p (send msg t) h)
    ]
    | inr (s, e) ↦ elim (Option-cases (find q h)) [
      | inl f ↦ ground (arith, e, f, apart, find-assign p q (send msg s) h)
      | inr (t, f) ↦ ground (
        arith,
        e,
        f,
        apart,
        find-assign p q (send msg s) h,
        find-assign q p (send msg t) h,
        assign_comm p q (send msg s) (send msg t) h apart,
      )
    ]
  ]
]

-- What the message does for one client, which is online or not.
abbrev effect : Text → Bool → ℕ → Client.Client → Clients × Heap → Clients × Heap
effect message online id c (clients, h) =
    if online
    then (clients, send_to c.session (line message) h)
    else (assign id (Client.buffer_topic_message message c) clients, h)

effect_comm :
    (message : Text) (online online' : Bool) (a b : ℕ) (c d : Client.Client) (x : Clients × Heap)
    → nat_beq a b ≡ false
    → effect message online a c (effect message online' b d x)
      ≡ effect message online' b d (effect message online a c x)
effect_comm message true true a b c d x apart =
    ap (λ h. (x.0, h)) (send_to_comm c.session d.session (line message) x.1)
effect_comm message true false a b c d x apart = refl
effect_comm message false true a b c d x apart = refl
effect_comm message false false a b c d x apart =
    ap (λ m. (m, x.1))
      (assign_comm a b (Client.buffer_topic_message message c)
        (Client.buffer_topic_message message d) x.0 apart)

module _ (message : Text) where
  abbrev deliver_to : ℕ → Clients × Heap → Clients × Heap
  deliver_to id (clients, h) = deliver message id clients h

  deliver_missing : (id : ℕ) (x : Clients × Heap) → find id x.0 ≡ none → deliver_to id x ≡ x
  unfolding deliver
  deliver_missing id x e = ground (arith, e)

  deliver_found :
      (id : ℕ) (c : Client.Client) (x : Clients × Heap)
      → find id x.0 ≡ some c
      → deliver_to id x ≡ effect message (is_online c x.1) id c x
  unfolding deliver is_online Client.send_topic_message
  deliver_found id c x e = ground (arith, e)

  deliver_missing_comm :
      (a b : ℕ) (x : Clients × Heap)
      → find a x.0 ≡ none
      → deliver_to a (deliver_to b x) ≡ deliver_to b (deliver_to a x)
  deliver_missing_comm a b x e =
      deliver_missing a (deliver_to b x) (ground (arith, e, find-deliver a message b x.0 x.1))
      ∙ ap (deliver_to b) (sym (deliver_missing a x e))

  deliver_comm :
      (a b : ℕ) (x : Clients × Heap)
      → nat_beq a b ≡ false
      → deliver_to a (deliver_to b x) ≡ deliver_to b (deliver_to a x)
  deliver_comm a b x apart = elim (Option-cases (find a x.0)) [
    | inl e ↦ deliver_missing_comm a b x e
    | inr (c, e) ↦ elim (Option-cases (find b x.0)) [
      | inl f ↦ sym (deliver_missing_comm b a x f)
      | inr (d, f) ↦
          let online : (z : Client.Client) (id : ℕ)
              → is_online z (deliver_to id x).1 ≡ is_online z x.1 =
            λ z id. is_online-deliver message id x.0 x.1 z in
          deliver_found a c (deliver_to b x)
            (ground (arith, e, apart, find-deliver a message b x.0 x.1))
          ∙ ap (λ o. effect message o a c (deliver_to b x)) (online c b)
          ∙ ap (effect message (is_online c x.1) a c) (deliver_found b d x f)
          ∙ effect_comm message (is_online c x.1) (is_online d x.1) a b c d x apart
          ∙ ap (effect message (is_online d x.1) b d) (sym (deliver_found a c x e))
          ∙ ap (λ o. effect message o b d (deliver_to a x)) (sym (online d a))
          ∙ sym (
              deliver_found b d (deliver_to a x)
                (ground (arith, f, apart, find-deliver b message a x.0 x.1)))
    ]
  ]

-- The message for the same ids in any order, from any state.
pub deliver_all-Permᴰ :
    (message : Text) {ids ids' : List ℕ}
    → Permᴰ ids ids'
    → NoRepeat ids
    → (clients : Clients) (h : Heap)
    → deliver_all message ids clients h ≡ deliver_all message ids' clients h
unfolding deliver_all contains
deliver_all-Permᴰ message Permᴰ.nil u clients h = refl
deliver_all-Permᴰ message (Permᴰ.cons {a} {b} {l₂ = s'} e d) u clients h =
    deliver_all-Permᴰ message d u.1 (deliver message a clients h).0 (deliver message a clients h).1
    ∙ ap (λ i. deliver_all message (i ∷ s') clients h) e
deliver_all-Permᴰ message (Permᴰ.swap {a} {b} {a'} {b'} {l = s} e f) u clients h =
    ap (λ x. deliver_all message s x.0 x.1)
      (deliver_comm message b a (clients, h) (ground (arith, u)))
    ∙ ap (λ i. deliver_all message (i ∷ a ∷ s) clients h) f
    ∙ ap (λ i. deliver_all message (a' ∷ i ∷ s) clients h) e
deliver_all-Permᴰ message (Permᴰ.trans d e) u clients h =
    deliver_all-Permᴰ message d u clients h
    ∙ deliver_all-Permᴰ message e (NoRepeat-Permᴰ d u) clients h
