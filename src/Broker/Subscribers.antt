-- ===== src/Broker/Subscribers.antt =====
-- The broker's topics and the sessions' own sets agree, and the gauge counts subscribers.
use quixiot.Prelude.{
  ℕ, ◌+◌, ◌<◌, is_empty, ◌≡◌, refl, ap, ap₂, sym, ◌∙◌, Bool, true, false, List, [], ◌∷◌, Bytes,
  some, length, if◌then◌else◌, arith, Bool-cases, inl, inr, subst,
}
use quixiot.Prelude.Strings.{same_bytes, same_bytes_iff}
use quixiot.Wire.{Frame}
use quixiot.Broker.{
  Broker, Outbox, new_broker, is_member, insert_member, members, members_of, subscribe, unsubscribe,
  cleanup, with_outbox, send_datagram, send_stream, drop_oldest,
}
use quixiot.Broker.Members.{
  Distinct, is_member-insert_member, is_member-remove_member, insert_member_new,
  length-remove_member, remove_member-Distinct, IsFilled, members_of-without, without-IsFilled,
}

-- What holds of one topic. A session that still runs is in the topic's set just when the topic is in
-- its own, and a session that was cleaned up is in no set; the gauge, where there are metrics, is the
-- size of the set, in which no session stands twice; and no set is empty.
pub record IsTopicSound (b : Broker) (topic : Bytes) : Type 0 where
  pub agrees :
      (s : ℕ) → is_member s (members b topic) ≡ (if b.closed s then false else b.subs s topic)
  pub gauge : b.metrics ≡ true → b.incs topic ≡ b.decs topic + length (members b topic)
  pub distinct : Distinct (members b topic)
  pub filled : IsFilled (b.topics topic)

abbrev pub IsSound : Broker → Type 0
IsSound b = (topic : Bytes) → IsTopicSound b topic

pub new_broker-IsSound : (metrics : Bool) → IsSound (new_broker metrics)
unfolding new_broker is_member
new_broker-IsSound metrics topic = record {
  agrees = λ s. refl;
  gauge = λ e. omega arith;
  distinct = tt;
  filled = tt;
}

-- A broker whose entry for a topic is as before is as sound there.
other_topic :
    (b c : Broker) (topic : Bytes)
    → IsTopicSound b topic
    → c.topics topic ≡ b.topics topic
    → ((s : ℕ)
        → (if c.closed s then false else c.subs s topic)
          ≡ (if b.closed s then false else b.subs s topic))
    → (c.incs topic ≡ b.incs topic) × (c.decs topic ≡ b.decs topic) × (c.metrics ≡ b.metrics)
    → IsTopicSound c topic
other_topic b c topic h e same (i, d, m) = record {
  agrees = λ s. ap (λ o. is_member s (members_of o)) e ∙ (h.agrees s ∙ sym (same s));
  gauge = λ on.
      i
      ∙ (h.gauge (sym m ∙ on)
          ∙ ap₂ (λ (x y : ℕ). x + y) (sym d) (ap (λ o. length (members_of o)) (sym e)));
  distinct = subst (λ o. Distinct (members_of o)) (sym e) h.distinct;
  filled = subst IsFilled (sym e) h.filled;
}

is_empty-of-lt : (xs : List ℕ) → 0 < length xs → is_empty xs ≡ false
is_empty-of-lt [] h = elim h [ ]
is_empty-of-lt (x ∷ xs) h = refl

same_bytes_self : (t : Bytes) → same_bytes t t ≡ true
same_bytes_self t = (same_bytes_iff t t).1 refl

module _ (s : ℕ) (b : Broker) (h : IsSound b) where
  -- The end of a session.
  pub cleanup-IsSound : IsSound (cleanup s b)
  unfolding cleanup
  cleanup-IsSound t =
      let o = b.topics t in
      let m = members b t in
      let rest = members_of-without s o in
      let fewer = length-remove_member s m (h t).distinct in
      record {
        agrees = λ r. rw rest (ground (arith, is_member-remove_member s r m, (h t).agrees r));
        gauge = λ on. rw rest (ground (arith, on, fewer, (h t).gauge));
        distinct = rw rest (remove_member-Distinct s m (h t).distinct);
        filled = without-IsFilled s o;
      }

module _ (s : ℕ) (topic : Bytes) (b : Broker) (h : IsSound b) where
  subscribe_here :
      b.closed s ≡ false → b.subs s topic ≡ false → IsTopicSound (subscribe s topic b) topic
  unfolding subscribe
  subscribe_here open_s new =
      let m = members b topic in
      let self = same_bytes_self topic in
      let absent : is_member s m ≡ false = ground (arith, (h topic).agrees s, open_s, new) in
      let (longer, distinct) = insert_member_new s m absent (h topic).distinct in
      record {
        agrees = λ r.
            ground (arith, self, new, open_s, is_member-insert_member s r m, (h topic).agrees r);
        gauge = λ on. ground (arith, self, new, longer, (h topic).gauge);
        distinct = rw (new, self) distinct;
        filled = rw (new, self) (is_empty-of-lt (insert_member s m) (omega (arith, longer)));
      }

  subscribe_elsewhere :
      (t : Bytes)
      → same_bytes topic t ≡ false
      → b.subs s topic ≡ false
      → IsTopicSound (subscribe s topic b) t
  unfolding subscribe
  subscribe_elsewhere t miss new =
      other_topic b (subscribe s topic b) t (h t) (ground (arith, miss, new))
        (λ r. ground (arith, miss, new))
        (ground (arith, miss, new), ground (arith, miss, new), ground (arith, miss, new))

  unsubscribe_here : b.closed s ≡ false → IsTopicSound (unsubscribe s topic b) topic
  unfolding unsubscribe
  unsubscribe_here open_s =
      let o = b.topics topic in
      let m = members b topic in
      let self = same_bytes_self topic in
      let rest = members_of-without s o in
      let fewer = length-remove_member s m (h topic).distinct in
      record {
        agrees = λ r. rw self (
            rw rest
              (ground (arith, self, open_s, is_member-remove_member s r m, (h topic).agrees r)));
        gauge = λ on. rw self (rw rest (ground (arith, on, fewer, (h topic).gauge)));
        distinct = rw self (rw rest (remove_member-Distinct s m (h topic).distinct));
        filled = rw self (without-IsFilled s o);
      }

  unsubscribe_elsewhere :
      (t : Bytes) → same_bytes topic t ≡ false → IsTopicSound (unsubscribe s topic b) t
  unfolding unsubscribe
  unsubscribe_elsewhere t miss =
      other_topic b (unsubscribe s topic b) t (h t) (ground (arith, miss))
        (λ r. ground (arith, miss))
        (ground (arith, miss), ground (arith, miss), ground (arith, miss))

  pub subscribe-IsSound : b.closed s ≡ false → IsSound (subscribe s topic b)
  unfolding subscribe
  subscribe-IsSound open_s t = elim (Bool-cases (b.subs s topic)) [
    | inl old ↦ rw (old, subscribe) (h t)
    | inr new ↦ elim (Bool-cases (same_bytes topic t)) [
      | inl hit ↦
          subst (IsTopicSound (subscribe s topic b)) ((same_bytes_iff topic t).0 hit)
            (subscribe_here open_s new)
      | inr miss ↦ subscribe_elsewhere t miss new
    ]
  ]

  pub unsubscribe-IsSound : b.closed s ≡ false → IsSound (unsubscribe s topic b)
  unsubscribe-IsSound open_s t = elim (Bool-cases (same_bytes topic t)) [
    | inl hit ↦
        subst (IsTopicSound (unsubscribe s topic b)) ((same_bytes_iff topic t).0 hit)
          (unsubscribe_here open_s)
    | inr miss ↦ unsubscribe_elsewhere t miss
  ]

-- A broker whose channels alone changed.
with_outbox-IsSound : (s : ℕ) (o : Outbox) (b : Broker) → IsSound b → IsSound (with_outbox s o b)
with_outbox-IsSound s o b h t =
    other_topic b (with_outbox s o b) t (h t) refl (λ r. refl) (refl, refl, refl)

-- What a running server does to its broker: a session that runs subscribes or unsubscribes; a publisher,
-- with the subscribers that it read when it began, sends a frame to a session's channel that has room,
-- or makes room in one; a writer takes the oldest frame off a channel; a session ends.
pub data Step (b : Broker) : Broker → Type 0 where
  subscribing :
      {c : Broker} (s : ℕ) (topic : Bytes) → b.closed s ≡ false → c ≡ subscribe s topic b → Step b c
  unsubscribing :
      {c : Broker} (s : ℕ) (topic : Bytes)
      → b.closed s ≡ false
      → c ≡ unsubscribe s topic b
      → Step b c
  sends_datagram :
      {c : Broker} (s : ℕ) (frame : Frame) (o : Outbox)
      → send_datagram frame (b.outbox s) ≡ some o
      → c ≡ with_outbox s o b
      → Step b c
  sends_stream :
      {c : Broker} (s : ℕ) (frame : Frame) (o : Outbox)
      → send_stream frame (b.outbox s) ≡ some o
      → c ≡ with_outbox s o b
      → Step b c
  makes_room : {c : Broker} (s : ℕ) → c ≡ with_outbox s (drop_oldest (b.outbox s)) b → Step b c
  write_datagram :
      {c : Broker} (s : ℕ) (frame : Frame) (rest : List Frame)
      → (b.outbox s).datagrams ≡ frame ∷ rest
      → c ≡ with_outbox s (record { datagrams = rest; streams = (b.outbox s).streams }) b
      → Step b c
  write_stream :
      {c : Broker} (s : ℕ) (frame : Frame) (rest : List Frame)
      → (b.outbox s).streams ≡ frame ∷ rest
      → c ≡ with_outbox s (record { datagrams = (b.outbox s).datagrams; streams = rest }) b
      → Step b c
  ends : {c : Broker} (s : ℕ) → b.closed s ≡ false → c ≡ cleanup s b → Step b c

pub data Reach (b : Broker) : Broker → Type 0 where
  here : Reach b b
  next : {c d : Broker} → Reach b c → Step c d → Reach b d

Step-IsSound : {b c : Broker} → IsSound b → Step b c → IsSound c
Step-IsSound {b} h (subscribing s topic runs e) =
    subst IsSound (sym e) (subscribe-IsSound s topic b h runs)
Step-IsSound {b} h (unsubscribing s topic runs e) =
    subst IsSound (sym e) (unsubscribe-IsSound s topic b h runs)
Step-IsSound {b} h (sends_datagram s frame o _ e) =
    subst IsSound (sym e) (with_outbox-IsSound s o b h)
Step-IsSound {b} h (sends_stream s frame o _ e) =
    subst IsSound (sym e) (with_outbox-IsSound s o b h)
Step-IsSound {b} h (makes_room s e) = subst IsSound (sym e) (with_outbox-IsSound s _ b h)
Step-IsSound {b} h (write_datagram s frame rest _ e) =
    subst IsSound (sym e) (with_outbox-IsSound s _ b h)
Step-IsSound {b} h (write_stream s frame rest _ e) =
    subst IsSound (sym e) (with_outbox-IsSound s _ b h)
Step-IsSound {b} h (ends s _ e) = subst IsSound (sym e) (cleanup-IsSound s b h)

pub Reach-IsSound : {b c : Broker} → IsSound b → Reach b c → IsSound c
Reach-IsSound h here = h
Reach-IsSound h (next r st) = Step-IsSound (Reach-IsSound h r) st

-- In every state that a new broker reaches, for every topic: a session that still runs is in the
-- topic's set just when it holds the topic itself, and one that ended is in none; the subscriber gauge,
-- where there are metrics, is the number of the topic's sessions, each counted once; and no topic
-- keeps an empty set.
pub broker_stays_sound :
    (metrics : Bool) {b : Broker}
    → Reach (new_broker metrics) b
    → (topic : Bytes) → IsTopicSound b topic
broker_stays_sound metrics = Reach-IsSound (new_broker-IsSound metrics)
