-- ===== src/Proxy/Closing/Closed.antt =====
-- What `Close` leaves behind.
use mathlib.Core.List.{Memᴰ}
use quixiot.Prelude.{
  ℕ, zero, suc, ◌<◌, ◌≡◌, ◌↔◌, refl, ap, ap₂, sym, ◌∙◌, subst, Bool, true, false, List, [], ◌∷◌,
  Option, none, some, ◌==◌, if◌then◌else◌, arith, Bool-cases, Option-cases, inl, inr, All, All-map,
  first_error, ◌⊎◌,
}
use quixiot.Proxy.{Proxy, Session, put, find_session, close_session, close_table}
use quixiot.Proxy.Sessions.{IsSound, close_session-IsSound, open_below}
use quixiot.Proxy.Closing.{take_listed, take_found, reported, close_reporting, close_each, close}

-- The range takes out what the table lists under the keys that it visits,
take_listed_has :
    (keys : List ℕ) (m : ℕ → Option ℕ) (key s : ℕ)
    → Memᴰ key keys
    → m key ≡ some s
    → Memᴰ s (take_listed keys m)
unfolding take_listed take_found
take_listed_has [] m key s d e = elim d [ ]
take_listed_has (k ∷ ks) m key s (Memᴰ.head same) e =
    let found : m k ≡ some s = ap m (sym same) ∙ e in rw found (Memᴰ.head refl)
take_listed_has (k ∷ ks) m key s (Memᴰ.tail d) e = elim (Bool-cases (k == key)) [
  | inl same ↦
      let found : m k ≡ some s = ap m (ground (arith, same)) ∙ e in rw found (Memᴰ.head refl)
  | inr other ↦
      let rest = take_listed_has ks (put m k none) key s d (ground (arith, other, e)) in
      elim (Option-cases (m k)) [ inl n ↦ rw n rest | inr (r, n) ↦ rw n (Memᴰ.tail rest) ]
]

-- and nothing else.
take_listed_from :
    {P : ℕ → Type 0} (keys : List ℕ) (m : ℕ → Option ℕ)
    → ((key s : ℕ) → m key ≡ some s → P s)
    → All P (take_listed keys m)
unfolding take_listed take_found
take_listed_from [] m h = tt
take_listed_from {P = P} (k ∷ ks) m h =
    let rest =
      take_listed_from {P = P} ks (put m k none) (λ key s e. h key s (ground (arith, e))) in
    elim (Option-cases (m k)) [ inl e ↦ rw e rest | inr (s, e) ↦ rw e (h k s e, rest) ]

-- Once every session is closed, none is counted.
open_below_none :
    (f : ℕ → Session) (n : ℕ) → ((s : ℕ) → s < n → (f s).done ≡ true) → open_below f n ≡ 0
unfolding open_below
open_below_none f zero h = refl
open_below_none f (suc n) h =
    ground (arith, h n (omega arith), open_below_none f n (λ s lt. h s (omega (arith, lt))))

-- What the closing of a session keeps, and what it closes.
close_session_keeps :
    (s : ℕ) (p : Proxy)
    → let q = close_session s p in
      (q.sessions ≡ p.sessions)
      × (q.closed ≡ p.closed)
      × (q.next ≡ p.next)
      × (q.metrics ≡ p.metrics)
unfolding close_session
close_session_keeps s p = elim (Bool-cases (p.session s).done) [
  | inl e ↦ rw e (refl, refl, refl, refl)
  | inr e ↦ rw e (refl, refl, refl, refl)
]

close_session_closes :
    (s t : ℕ) (p : Proxy)
    → ((close_session s p).session t).done ≡ (if s == t then true else (p.session t).done)
unfolding close_session
close_session_closes s t p = elim (Bool-cases (s == t)) [
  | inl same ↦
      let e : s ≡ t = ground (arith, same) in
      subst
        (λ k. ((close_session s p).session k).done ≡ (if s == k then true else (p.session k).done))
        e (ground arith)
  | inr other ↦ ground (arith, other)
]

first_error-none {ℓ} :
    {E : Type ℓ} (a b : Option E) → first_error a b ≡ none → (a ≡ none) × (b ≡ none)
first_error-none none b h = (refl, h)
first_error-none (some a) b h = cc

module _ {ℓ} {E : Type ℓ} (is_closed : E → Bool) (close_upstream : ℕ → Option E)
    (close_listen : Option E) where
  abbrev closed_by : List ℕ → Proxy → Option E → Proxy
  closed_by ss p e = (close_each is_closed close_upstream close_listen ss p e).0

  -- The loop leaves the table, the channel `closed` and the number of sessions alone,
  close_each_keeps :
      (ss : List ℕ) (p : Proxy) (e : Option E)
      → let q = closed_by ss p e in
        (q.sessions ≡ p.sessions)
        × (q.closed ≡ p.closed)
        × (q.next ≡ p.next)
        × (q.metrics ≡ p.metrics)
  unfolding close_each close_reporting close_session
  close_each_keeps [] p e = (refl, refl, refl, refl)
  close_each_keeps (s ∷ ss) p e =
      let (a, b, c, d) = close_each_keeps ss (close_session s p) _ in
      let (a', b', c', d') = close_session_keeps s p in (a ∙ a', b ∙ b', c ∙ c', d ∙ d')

  -- opens no session,
  close_each_stays :
      (ss : List ℕ) (p : Proxy) (e : Option E) (t : ℕ)
      → (p.session t).done ≡ true
      → ((closed_by ss p e).session t).done ≡ true
  unfolding close_each close_reporting
  close_each_stays [] p e t h = h
  close_each_stays (s ∷ ss) p e t h =
      close_each_stays ss (close_session s p) _ t (ground (arith, h, close_session_closes s t p))

  -- and closes each session that was taken out.
  close_each_closes :
      (ss : List ℕ) (p : Proxy) (e : Option E) (t : ℕ)
      → Memᴰ t ss
      → ((closed_by ss p e).session t).done ≡ true
  unfolding close_each close_reporting
  close_each_closes [] p e t d = elim d [ ]
  close_each_closes (s ∷ ss) p e t (Memᴰ.head same) =
      close_each_stays ss (close_session s p) _ t (ground (arith, same, close_session_closes s t p))
  close_each_closes (s ∷ ss) p e t (Memᴰ.tail d) = close_each_closes ss (close_session s p) _ t d

  close_each-IsSound :
      (ss : List ℕ) (p : Proxy) (e : Option E)
      → All (λ s. s < p.next) ss
      → ((key : ℕ) → p.sessions key ≡ none)
      → IsSound p
      → IsSound (closed_by ss p e)
  unfolding close_each close_reporting
  close_each-IsSound [] p e lt free h = h
  close_each-IsSound (s ∷ ss) p e lt free h =
      let (a, _, c, _) = close_session_keeps s p in
      close_each-IsSound ss (close_session s p) _ (subst (λ n. All (λ r. r < n) ss) (sym c) lt.1)
        (λ key. ap (λ (m : ℕ → Option ℕ). m key) a ∙ free key)
        (close_session-IsSound s p lt.0 (λ key i. ground (arith, free key, i)) h)

  -- It returns no error just when there was none before and no open session's socket reports one.
  close_each_error :
      (ss : List ℕ) (p : Proxy) (e : Option E)
      → (close_each is_closed close_upstream close_listen ss p e).1 ≡ none
      → (e ≡ none)
        × ((s : ℕ)
            → Memᴰ s ss
            → (p.session s).done ≡ false
            → reported is_closed (close_upstream s) ≡ none)
  unfolding close_each close_reporting
  close_each_error [] p e h = (h, λ s d. elim d [ ])
  close_each_error (s ∷ ss) p e h =
      let (front, rest) = close_each_error ss (close_session s p) _ h in
      let (before, own) = first_error-none e _ front in
      let at_s : (p.session s).done ≡ false → reported is_closed (close_upstream s) ≡ none =
        λ o. ground (arith, o, own) in
      (
        before,
        λ t d o. elim (Bool-cases (s == t)) [
          | inl same ↦
              let e' : s ≡ t = ground (arith, same) in
              subst (λ k. (p.session k).done ≡ false → reported is_closed (close_upstream k) ≡ none)
                e' at_s o
          | inr other ↦ elim d [
            | Memᴰ.head e' ↦ ground (arith, other, e')
            | Memᴰ.tail d' ↦ rest t d' (ground (arith, other, o, close_session_closes s t p))
          ]
        ],
      )

  close_each_quiet :
      (ss : List ℕ) (p : Proxy)
      → All (λ s. reported is_closed (close_upstream s) ≡ none) ss
      → (close_each is_closed close_upstream close_listen ss p none).1 ≡ none
  unfolding close_each close_reporting
  close_each_quiet [] p h = refl
  close_each_quiet (s ∷ ss) p h =
      let own : (if (p.session s).done then none else reported is_closed (close_upstream s))
          ≡ none =
        ground (arith, h.0) in
      ap (λ e. (close_each is_closed close_upstream close_listen ss (close_session s p) e).1) own
      ∙ close_each_quiet ss (close_session s p) h.1

  -- How `Close` leaves a proxy `p`: the table is empty, every session is closed, and the gauge of
  -- active sessions is back at 0. There is no error just when no socket's `Close` reports one. A second
  -- `Close` changes nothing and reports nothing.
  pub record Ended (p q : Proxy) (e : Option E) : Type ℓ where
    pub empty : (key : ℕ) → find_session key q ≡ none
    pub all_done : (s : ℕ) → s < q.next → (q.session s).done ≡ true
    pub gauge : q.metrics ≡ true → q.incs ≡ q.decs
    pub errors : (e ≡ none) ↔ (
        ((key s : ℕ) → find_session key p ≡ some s → reported is_closed (close_upstream s) ≡ none)
        × (reported is_closed close_listen ≡ none))
    pub again : (order : List ℕ) → close is_closed close_upstream close_listen order q ≡ (q, none)

  -- The proxy once its table is taken.
  abbrev emptied : Proxy → Proxy
  emptied p = record p { closed = true; sessions = λ _. none }

  emptied-IsSound : (p : Proxy) → IsSound p → IsSound (emptied p)
  emptied-IsSound p h = record { listed = λ key s i. ground (arith, i); gauge = h.gauge }

  -- Every session is done once those are closed that are in `ss`.
  close_each_ends :
      (ss : List ℕ) (p : Proxy)
      → IsSound p
      → p.closed ≡ false
      → All (λ s. (key : ℕ) × (p.sessions key ≡ some s)) ss
      → ((s : ℕ) → s < p.next → ((p.session s).done ≡ true) ⊎ Memᴰ s ss)
      → let q = closed_by ss (emptied p) none in
        ((s : ℕ) → s < q.next → (q.session s).done ≡ true) × IsSound q
  close_each_ends ss p h fresh own cover =
      let (_, _, nx, _) = close_each_keeps ss (emptied p) none in
      (
        λ s lt. elim (cover s (subst (λ n. s < n) nx lt)) [
          | inl o ↦ close_each_stays ss (emptied p) none s o
          | inr d ↦ close_each_closes ss (emptied p) none s d
        ],
        close_each-IsSound ss (emptied p) none
            (All-map {Q = λ s. s < p.next} (λ s o. (h.listed o.0 s o.1).0) ss own) (λ key. refl)
            (emptied-IsSound p h),
      )

  first_close :
      (order : List ℕ) (p : Proxy)
      → p.closed ≡ false
      → let (q, e) =
          close_each is_closed close_upstream close_listen
            (take_listed order p.sessions)
            (emptied p)
            none in
        close is_closed close_upstream close_listen order p
        ≡ (q, first_error e (reported is_closed close_listen))
  unfolding close close_table
  first_close order p fresh =
      ap
        (λ c.
          if c
          then (p, none)
          else let (q, e) =
              close_each is_closed close_upstream close_listen (take_listed order p.sessions)
                (if c then p else emptied p) none in
            (q, first_error e (reported is_closed close_listen)))
        fresh

  closed_again :
      (order : List ℕ) (p : Proxy)
      → p.closed ≡ true
      → close is_closed close_upstream close_listen order p ≡ (p, none)
  unfolding close
  closed_again order p e = ground (arith, e)

  -- Where the table is sound, the range visits all of its keys, and no session is between its making
  -- and its place in the table, the first `Close` empties the table, closes every session, brings the
  -- gauge of active sessions back to 0, and returns no error just when no socket's `Close` reports
  -- one; a second `Close` changes nothing and returns no error.
  pub close-Ended :
      (order : List ℕ) (p : Proxy)
      → IsSound p
      → p.closed ≡ false
      → ((key s : ℕ) → p.sessions key ≡ some s → Memᴰ key order)
      → ((s : ℕ)
          → s < p.next
          → ((p.session s).done ≡ true) ⊎ (p.sessions (p.session s).key ≡ some s))
      → let (q, e) = close is_closed close_upstream close_listen order p in Ended p q e
  unfolding close
  close-Ended order p h fresh covered listed =
      let taken = take_listed order p.sessions in
      let q = closed_by taken (emptied p) none in
      let has : (key s : ℕ) → p.sessions key ≡ some s → Memᴰ s taken =
        λ key s i. take_listed_has order p.sessions key s (covered key s i) i in
      let own : All (λ s. (key : ℕ) × (p.sessions key ≡ some s)) taken =
        take_listed_from order p.sessions (λ key s i. (key, i)) in
      let (tab, cl, _, _) = close_each_keeps taken (emptied p) none in
      let (done_all, sound) =
        close_each_ends taken p h fresh own (λ s lt. elim (listed s lt) [
          | inl o ↦ inl o
          | inr i ↦ inr (has (p.session s).key s i)
        ]) in
      subst (λ r. Ended p r.0 r.1) (sym (first_close order p fresh))
        (record {
          empty = λ key. ap (λ (m : ℕ → Option ℕ). m key) tab;
          all_done = done_all;
          gauge = λ on. ground (arith, sound.gauge on, open_below_none q.session q.next done_all);
          errors = (
            λ none_at_all.
                let (inside, outside) = first_error-none _ _ none_at_all in
                (
                  λ key s i.
                      (close_each_error taken (emptied p) none inside).1 s (has key s i)
                        (h.listed key s i).2,
                  outside,
                ),
            λ (quiet, outside).
                let inside = close_each_quiet taken (emptied p) (
                  All-map {Q = λ s. reported is_closed (close_upstream s) ≡ none}
                    (λ s o. quiet o.0 s o.1) taken own) in
                ap₂ first_error inside outside,
          );
          again = λ order2. closed_again order2 q cl;
        })
