-- ===== src/SharedConn/Registry.antt =====
-- The sessions that a connection lists are open, and listed under their own streams.
use quixiot.Prelude.{
  ℕ, ◌<◌, ◌≡◌, ◌≢◌, refl, ap, sym, ◌∙◌, subst, Bool, true, false, ◌∷◌, [], ◌++◌, Option, none, some,
  ok, arith, Bool-cases, Option-cases, inl, inr,
}
use quixiot.Wire.{Varint}
use quixiot.SharedConn.{
  Cause, cause_of, TransportSession, Client, set_at, session_at, put_session, with_sessions,
  register_session, deleted, unregister_session, shut, close_with_cause, new_session, drop_sessions,
  close_sessions, end_conn, clear_shared, begin_close, queued, enqueue_uni_stream,
}

-- What holds of all that a client made. A session stands in a connection's map only if it was made, for
-- this connection, on the stream that is its key, and has not been closed; a session is closed just when
-- its context has a cause; and a client that was closed shares no connection.
pub record IsSound (w : Client) : Type 0 where
  pub listed :
      (c id s : ℕ)
      → session_at (w.conns c).sessions id ≡ some s
      → (s < w.next_session)
        × ((w.session s).shared ≡ c)
        × ((w.session s).session_id ≡ id)
        × ((w.session s).closed ≡ false)
  pub caused : (s : ℕ) → (w.session s).closed ≡ true → (w.session s).cause ≢ none
  pub shut_client : w.closed ≡ true → w.shared ≡ none

pub register_session-IsSound :
    (s : ℕ) (w v : Client)
    → s < w.next_session
    → (w.session s).closed ≡ false
    → register_session s w ≡ ok v
    → IsSound w
    → IsSound v
unfolding register_session put_session
register_session-IsSound s w v lt open_s e h =
    elim (Option-cases (w.conns (w.session s).shared).sessions) [
      | inl n ↦ absurd (ground (arith, e, n))
      | inr (m, n) ↦
          let t = w.session s in
          let same : with_sessions t.shared (some (set_at m t.session_id (some s))) w ≡ v =
            ground (arith, e, n) in
          let old = λ (c id r : ℕ). h.listed c id r in
          subst IsSound same (record {
            listed = λ c id r i. ground (
              arith,
              i,
              n,
              ap (λ o. session_at o id) n,
              old c id r,
              old t.shared id r,
              lt,
              open_s,
            );
            caused = h.caused;
            shut_client = h.shut_client;
          })
    ]

pub new_session-IsSound :
    (v : Varint) (c id : ℕ) (w : Client) → IsSound w → IsSound (new_session v c id w)
unfolding new_session
new_session-IsSound v c id w h = record {
  listed = λ c' i s e. ground (arith, h.listed c' i s e);
  caused = λ s e. ground (arith, e, h.caused s);
  shut_client = h.shut_client;
}

-- A connection's map with fewer sessions.
fewer-IsSound :
    (c : ℕ) (m : Option (ℕ → Option ℕ)) (w : Client)
    → ((id s : ℕ) → session_at m id ≡ some s → session_at (w.conns c).sessions id ≡ some s)
    → IsSound w
    → IsSound (with_sessions c m w)
fewer-IsSound c m w sub h = record {
  listed = λ c' i s e. ground (arith, e, sub i s, h.listed c i s, h.listed c' i s);
  caused = h.caused;
  shut_client = h.shut_client;
}

unregister_session-IsSound :
    (c id s : ℕ) (w : Client) → IsSound w → IsSound (unregister_session c id s w)
unfolding unregister_session
unregister_session-IsSound c id s w h =
    fewer-IsSound c _ w (deleted_sub id s (w.conns c).sessions) h
  where
    deleted_sub :
        (id s : ℕ) (m : Option (ℕ → Option ℕ)) (i r : ℕ)
        → session_at (deleted id s m) i ≡ some r
        → session_at m i ≡ some r
    deleted_sub id s none i r e = e
    deleted_sub id s (some m) i r e = ground (arith, e)

deleted_gone : (id s : ℕ) (m : Option (ℕ → Option ℕ)) → session_at (deleted id s m) id ≢ some s
unfolding deleted
deleted_gone id s none e = cc
deleted_gone id s (some m) e = elim (Option-cases (m id)) [
  | inl n ↦ ground (arith, e, n)
  | inr (r, n) ↦ ground (arith, e, n)
]

-- `s` stands in no map.
abbrev pub Unlisted : ℕ → Client → Type 0
Unlisted s w = (c id : ℕ) → session_at (w.conns c).sessions id ≢ some s

unregister_session-Unlisted :
    (s : ℕ) (w : Client)
    → IsSound w
    → Unlisted s (unregister_session (w.session s).shared (w.session s).session_id s w)
unfolding unregister_session deleted
unregister_session-Unlisted s w h c id e =
    let (_, own_c, own_id, _) =
      (unregister_session-IsSound (w.session s).shared (w.session s).session_id s w h).listed c id s
        e in
    deleted_gone (w.session s).session_id s (w.conns (w.session s).shared).sessions
      (ground (arith, e, own_c, own_id))

pub close_sessions-IsSound :
    (snapshot : ℕ → Bool) (w : Client)
    → ((s : ℕ) → snapshot s ≡ true → Unlisted s w)
    → IsSound w
    → IsSound (close_sessions snapshot w)
unfolding close_sessions
close_sessions-IsSound snapshot w gone h = record {
  listed = λ c id s e. elim (Bool-cases (snapshot s)) [
    | inl y ↦ absurd (gone s y c id e)
    | inr n ↦ rw n (h.listed c id s e)
  ];
  caused = λ s e. ground (arith, e, h.caused s);
  shut_client = h.shut_client;
}

shut-IsSound :
    (e : Cause) (s : ℕ) (t : TransportSession) (w : Client)
    → Unlisted s w
    → IsSound w
    → IsSound (record w { session = set_at w.session s (shut e t) })
shut-IsSound e s t w free h = record {
  listed = λ c id r i. ground (arith, i, h.listed c id r i, free c id);
  caused = λ r i. ground (arith, i, h.caused r);
  shut_client = h.shut_client;
}

pub close_with_cause-IsSound :
    (e : Cause) (s : ℕ) (w : Client) → IsSound w → IsSound (close_with_cause e s w)
unfolding close_with_cause
close_with_cause-IsSound e s w h = elim (Bool-cases (w.session s).closed) [
  | inl old ↦ simp old h
  | inr new ↦ simp new (
      let t = w.session s in
      shut-IsSound (cause_of e) s t (unregister_session t.shared t.session_id s w)
        (unregister_session-Unlisted s w h)
        (unregister_session-IsSound t.shared t.session_id s w h))
]

pub drop_sessions-IsSound : (c : ℕ) (w : Client) → IsSound w → IsSound (drop_sessions c w)
unfolding drop_sessions
drop_sessions-IsSound c w h = fewer-IsSound c none w (λ id s e. absurd (ground (arith, e))) h

-- Two maps of connections that list the same sessions.
pub same_lists-IsSound :
    (w v : Client)
    → ((c id : ℕ) → session_at (v.conns c).sessions id ≡ session_at (w.conns c).sessions id)
    → v.session ≡ w.session
    → v.next_session ≡ w.next_session
    → (v.closed ≡ true → v.shared ≡ none)
    → IsSound w
    → IsSound v
same_lists-IsSound w v lists same_s same_n shut_v h = record {
  listed = λ c id s e. rw (same_s, same_n) (h.listed c id s (sym (lists c id) ∙ e));
  caused = rw same_s h.caused;
  shut_client = shut_v;
}

pub end_conn-IsSound : (c : ℕ) (w : Client) → IsSound w → IsSound (end_conn c w)
unfolding end_conn
end_conn-IsSound c w h = same_lists-IsSound w _ (λ d id. ground arith) refl refl h.shut_client h

pub begin_close-IsSound : (c : ℕ) (w : Client) → IsSound w → IsSound (begin_close c w)
unfolding begin_close
begin_close-IsSound c w h = same_lists-IsSound w _ (λ d id. ground arith) refl refl h.shut_client h

pub clear_shared-IsSound : (c : ℕ) (w : Client) → IsSound w → IsSound (clear_shared c w)
unfolding clear_shared
clear_shared-IsSound c w h =
    same_lists-IsSound w _ (λ d id. refl) refl refl (λ e. ground (arith, h.shut_client e)) h

pub enqueue_uni_stream-IsSound :
    (choice : Bool) (s stream : ℕ) (w v : Client)
    → enqueue_uni_stream choice s stream w ≡ queued v
    → IsSound w
    → IsSound v
unfolding enqueue_uni_stream
enqueue_uni_stream-IsSound choice s stream w v e h =
    let t = record (w.session s) { uni_queue = (w.session s).uni_queue ++ stream ∷ [] } in
    let same : record w { session = set_at w.session s t } ≡ v = ground (arith, e) in
    subst IsSound same (record {
      listed = λ c id r i. ground (arith, h.listed c id r i);
      caused = λ r i. ground (arith, i, h.caused r);
      shut_client = h.shut_client;
    })
