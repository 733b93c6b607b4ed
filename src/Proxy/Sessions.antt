-- ===== src/Proxy/Sessions.antt =====
-- The table lists open sessions under their own keys, and the gauge counts the open sessions.
use quixiot.Prelude.{
  ℕ, zero, suc, ◌+◌, ◌<◌, ◌≤◌, ◌≡◌, ◌≢◌, refl, ap, sym, ◌∙◌, Bool, true, false, [], ◌∷◌, ◌++◌,
  Bytes, Option, none, some, ◌==◌, if◌then◌else◌, arith, Bool-cases, Option-cases, inl, inr, subst,
  ok, >>=-eq-ok, guard,
}
use quixiot.Impair.Config.{normalize_profile}
use quixiot.Proxy.{
  no_listen_conn, no_upstream_addr, set_read_buffer, as_proxy_error, Proxy, Session, Options, put,
  new_proxy, find_session, make_session, close_session, insert_session, insert_found,
  remove_session, is_current, touch, sweep, kept, close_table, enqueue_incoming,
}

-- How many of the first `n` sessions are open.
unfoldable pub open_below : (ℕ → Session) → ℕ → ℕ
open_below f zero = 0
open_below f (suc n) = let rest = open_below f n in if (f n).done then rest else suc rest

pub open_below_above :
    (f : ℕ → Session) (k : ℕ) (v : Session) (n : ℕ)
    → n ≤ k
    → open_below (put f k v) n ≡ open_below f n
unfolding open_below
open_below_above f k v zero h = refl
open_below_above f k v (suc n) h = ground (arith, open_below_above f k v n)

pub open_below_same :
    (f : ℕ → Session) (k : ℕ) (v : Session) (n : ℕ)
    → v.done ≡ (f k).done
    → open_below (put f k v) n ≡ open_below f n
unfolding open_below
open_below_same f k v zero h = refl
open_below_same f k v (suc n) h = elim (Bool-cases (k == n)) [
  | inl e ↦
      let h' : v.done ≡ (f n).done = h ∙ ap (λ j. (f j).done) (ground (arith, e)) in
      ground (arith, e, h', open_below_same f k v n h)
  | inr e ↦ ground (arith, e, open_below_same f k v n h)
]

pub open_below_closed :
    (f : ℕ → Session) (k : ℕ) (v : Session) (n : ℕ)
    → k < n
    → (f k).done ≡ false
    → v.done ≡ true
    → open_below f n ≡ suc (open_below (put f k v) n)
unfolding open_below
open_below_closed f k v zero h d e = omega arith
open_below_closed f k v (suc n) h d e = elim (Bool-cases (k == n)) [
  | inl hit ↦
      let same : k ≡ n = ground (arith, hit) in
      let d' : (f n).done ≡ false = subst (λ j. (f j).done ≡ false) same d in
      ground (arith, hit, d', e, open_below_above f k v n (omega (arith, same)))
  | inr miss ↦ ground (arith, miss, open_below_closed f k v n (ground (arith, h, miss)) d e)
]

-- What holds of the table: each entry is a session that exists, is open, and has the entry's key; and,
-- where there are metrics, the gauge is the number of open sessions.
pub record IsSound (p : Proxy) : Type 0 where
  pub listed :
      (key s : ℕ)
      → p.sessions key ≡ some s
      → (s < p.next) × ((p.session s).key ≡ key) × ((p.session s).done ≡ false)
  pub gauge : p.metrics ≡ true → p.incs ≡ p.decs + open_below p.session p.next

-- `s` is not in the table.
abbrev pub Unlisted : ℕ → Proxy → Type 0
Unlisted s p = (key : ℕ) → p.sessions key ≡ some s → ⊥

make_session-IsSound : (key now : ℕ) (p : Proxy) → IsSound p → IsSound (make_session key now p)
unfolding make_session open_below
make_session-IsSound key now p h = record {
  listed = λ k s e. ground (arith, h.listed k s e);
  gauge = λ on. ground (
    arith,
    on,
    h.gauge on,
    open_below_above p.session p.next
        (record { key = key; last_seen = now; done = false; incoming = [] }) p.next,
  );
}

pub close_session-IsSound :
    (s : ℕ) (p : Proxy) → s < p.next → Unlisted s p → IsSound p → IsSound (close_session s p)
unfolding close_session
close_session-IsSound s p lt free h = elim (Bool-cases (p.session s).done) [
  | inl e ↦ rw e h
  | inr e ↦ rw e (record {
    listed = λ k r i. ground (arith, h.listed k r i, free k, i);
    gauge = λ on. ground (
      arith,
      on,
      h.gauge on,
      open_below_closed p.session s (record (p.session s) { done = true }) p.next lt e refl,
    );
  })
]

-- A table with fewer entries.
fewer-IsSound :
    (p : Proxy) (m : ℕ → Option ℕ)
    → ((key s : ℕ) → m key ≡ some s → p.sessions key ≡ some s)
    → IsSound p
    → IsSound (record p { sessions = m })
fewer-IsSound p m sub h = record { listed = λ k s e. h.listed k s (sub k s e); gauge = h.gauge }

remove_entry : ℕ → ℕ → Proxy → ℕ → Option ℕ
remove_entry key s p = if is_current s (p.sessions key) then put p.sessions key none else p.sessions

is_current_absent : (s : ℕ) (o : Option ℕ) → is_current s o ≡ false → o ≡ some s → ⊥
unfolding is_current
is_current_absent s none h e = cc
is_current_absent s (some r) h e = ground (arith, h, ap (is_current s) e)

-- Once a session has left its key, it is nowhere in the table.
left-Unlisted :
    (s : ℕ) (p : Proxy)
    → IsSound p
    → Unlisted s (record p { sessions = remove_entry (p.session s).key s p })
unfolding remove_entry
left-Unlisted s p h key e =
    let own = (p.session s).key in
    elim (Bool-cases (is_current s (p.sessions own))) [
      | inl i ↦ ground (arith, e, i, h.listed key s)
      | inr i ↦
          let e' : p.sessions key ≡ some s = ground (arith, e, i) in
          is_current_absent s (p.sessions own) i
            (subst (λ k. p.sessions k ≡ some s) (sym (h.listed key s e').1) e')
    ]

touch-IsSound : (s now : ℕ) (p : Proxy) → IsSound p → IsSound (touch s now p)
unfolding touch
touch-IsSound s now p h = record {
  listed = λ k r i. ground (arith, h.listed k r i);
  gauge = λ on. ground (
    arith,
    on,
    h.gauge on,
    open_below_same p.session s (record (p.session s) { last_seen = now }) p.next refl,
  );
}

enqueue_incoming-IsSound :
    (choice : Bool) (s : ℕ) (packet : Bytes) (p q : Proxy)
    → IsSound p
    → enqueue_incoming choice s packet p ≡ ok q
    → IsSound q
unfolding enqueue_incoming
enqueue_incoming-IsSound choice s packet p q h e =
    let n = record (p.session s) { incoming = (p.session s).incoming ++ packet ∷ [] } in
    let same : q ≡ record p { session = put p.session s n } = ground (arith, e) in
    subst IsSound (sym same) (record {
      listed = λ k r i. ground (arith, h.listed k r i);
      gauge = λ on. ground (arith, on, h.gauge on, open_below_same p.session s n p.next refl);
    })

sweep-sub : (now : ℕ) (p : Proxy) (o : Option ℕ) (s : ℕ) → kept now p o ≡ some s → o ≡ some s
unfolding kept
sweep-sub now p none s e = e
sweep-sub now p (some r) s e = ground (arith, e)

remove_session-IsSound :
    (s : ℕ) (p : Proxy) → s < p.next → IsSound p → IsSound (remove_session (p.session s).key s p)
unfolding remove_session remove_entry
remove_session-IsSound s p lt h = elim (Bool-cases (is_current s (p.sessions (p.session s).key))) [
  | inl i ↦ rw i (
      close_session-IsSound s (record p { sessions = put p.sessions (p.session s).key none }) lt
        (rw i at (left-Unlisted s p h)) (fewer-IsSound p _ (λ k r e. ground (arith, e)) h))
  | inr i ↦ rw i (close_session-IsSound s p lt (rw i at (left-Unlisted s p h)) h)
]

insert_session-IsSound :
    (key s : ℕ) (p : Proxy)
    → s < p.next
    → (p.session s).key ≡ key
    → (p.session s).done ≡ false
    → Unlisted s p
    → IsSound p
    → IsSound (insert_session key s p).0
unfolding insert_session insert_found
insert_session-IsSound key s p lt own open_s free h = elim (Option-cases (p.sessions key)) [
  | inl e ↦ rw e (record {
    listed = λ k r i. ground (arith, i, h.listed k r, own, open_s, lt);
    gauge = h.gauge;
  })
  | inr (r, e) ↦ rw e (close_session-IsSound s p lt free h)
]

sweep-IsSound : (now : ℕ) (p : Proxy) → IsSound p → IsSound (sweep now p)
unfolding sweep
sweep-IsSound now p h = fewer-IsSound p _ (λ k s e. sweep-sub now p (p.sessions k) s e) h

pub close_table-IsSound : (p : Proxy) → IsSound p → IsSound (close_table p)
unfolding close_table
close_table-IsSound p h = record {
  listed = λ k s i. ground (arith, i, h.listed k s);
  gauge = λ on. ground (arith, on, h.gauge);
}

-- What a running proxy does to its table: a client's packet makes a session, which is inserted; one of
-- the loops of a session, or a failed read, removes it; the sweep takes idle sessions away; a session
-- that the sweep, `Close` or a lost race left out of the table is closed; the proxy is closed; a
-- session is touched; a packet waits for it.
pub data Step (p : Proxy) : Proxy → Type 0 where
  makes : {q : Proxy} (key now : ℕ) → q ≡ make_session key now p → Step p q
  inserts :
      {q : Proxy} (s : ℕ)
      → s < p.next
      → (p.session s).done ≡ false
      → Unlisted s p
      → q ≡ (insert_session (p.session s).key s p).0
      → Step p q
  removes : {q : Proxy} (s : ℕ) → s < p.next → q ≡ remove_session (p.session s).key s p → Step p q
  sweeps : {q : Proxy} (now : ℕ) → q ≡ sweep now p → Step p q
  closes_one : {q : Proxy} (s : ℕ) → s < p.next → Unlisted s p → q ≡ close_session s p → Step p q
  closes_table : {q : Proxy} → q ≡ close_table p → Step p q
  touches : {q : Proxy} (s now : ℕ) → q ≡ touch s now p → Step p q
  enqueues :
      {q : Proxy} (choice : Bool) (s : ℕ) (packet : Bytes)
      → enqueue_incoming choice s packet p ≡ ok q
      → Step p q

pub data Reach (p : Proxy) : Proxy → Type 0 where
  here : Reach p p
  next : {q r : Proxy} → Reach p q → Step q r → Reach p r

Step-IsSound : {p q : Proxy} → IsSound p → Step p q → IsSound q
Step-IsSound {p} h (makes key now e) = subst IsSound (sym e) (make_session-IsSound key now p h)
Step-IsSound {p} h (inserts s lt open_s free e) =
    subst IsSound (sym e) (insert_session-IsSound (p.session s).key s p lt refl open_s free h)
Step-IsSound {p} h (removes s lt e) = subst IsSound (sym e) (remove_session-IsSound s p lt h)
Step-IsSound {p} h (sweeps now e) = subst IsSound (sym e) (sweep-IsSound now p h)
Step-IsSound {p} h (closes_one s lt free e) =
    subst IsSound (sym e) (close_session-IsSound s p lt free h)
Step-IsSound {p} h (closes_table e) = subst IsSound (sym e) (close_table-IsSound p h)
Step-IsSound {p} h (touches s now e) = subst IsSound (sym e) (touch-IsSound s now p h)
Step-IsSound {p} {q} h (enqueues choice s packet e) =
    enqueue_incoming-IsSound choice s packet p q h e

Reach-IsSound : {p q : Proxy} → IsSound p → Reach p q → IsSound q
Reach-IsSound h here = h
Reach-IsSound h (next r st) = Step-IsSound (Reach-IsSound h r) st

new_proxy-IsSound : (o : Options) (p : Proxy) → new_proxy o ≡ ok p → IsSound p
unfolding new_proxy open_below
new_proxy-IsSound o p e =
    let (_, _, e1) = >>=-eq-ok (guard o.listen_conn no_listen_conn) _ e in
    let (_, _, e2) = >>=-eq-ok (guard o.upstream_addr no_upstream_addr) _ e1 in
    let (_, _, e3) = >>=-eq-ok (as_proxy_error (normalize_profile o.profile)) _ e2 in
    let (_, _, e4) = >>=-eq-ok (guard o.buffer_set set_read_buffer) _ e3 in
    record { listed = λ k s i. ground (arith, i, e4); gauge = λ on. ground (arith, e4) }

-- In every state that a new proxy reaches, each entry of its table is a session that was made for the
-- entry's client and is still open, and the gauge of active sessions, where there are metrics, is the
-- number of open sessions.
pub table_stays-IsSound :
    (o : Options) (p : Proxy) → new_proxy o ≡ ok p → {q : Proxy} → Reach p q → IsSound q
table_stays-IsSound o p e = Reach-IsSound (new_proxy-IsSound o p e)

-- Of two sessions that were made for one client at a time, the one that is inserted first is the
-- session that every later packet of the client finds. The other is closed and not listed. No other
-- client's entry changes.
pub insert_session_agrees :
    (key s : ℕ) (p : Proxy)
    → let (q, chosen) = insert_session key s p in
      (find_session key q ≡ some chosen)
      × ((r : ℕ) → find_session key p ≡ some r → (chosen ≡ r) × ((q.session s).done ≡ true))
      × (find_session key p ≡ none → (chosen ≡ s) × (q.session ≡ p.session))
      × ((other : ℕ) → other ≢ key → find_session other q ≡ find_session other p)
unfolding insert_session insert_found close_session
insert_session_agrees key s p = elim (Option-cases (p.sessions key)) [
  | inl e ↦
      rw e (ground arith, λ r h. ground (arith, h), λ h. (refl, refl), λ other h. ground (arith, h))
  | inr (r, e) ↦ rw e (
    ground (arith, e),
    λ r' h. ground (arith, h),
    λ h. ground (arith, h),
    λ other h. ground (arith, h),
  )
]
