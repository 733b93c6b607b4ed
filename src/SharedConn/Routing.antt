-- ===== src/SharedConn/Routing.antt =====
-- Which session a stream of the server goes to.
use quixiot.Prelude.{
  ℕ, ◌<◌, ◌^◌, ◌≡◌, ◌≢◌, refl, ◌∙◌, Bool, true, false, [], ◌++◌, Bytes, none, some, drop, ◌==◌,
  drop-append, arith, Bool-cases, Option-cases, inl, inr,
}
use quixiot.Wire.{Varint}
use quixiot.SharedConn.{
  Client, web_transport_uni_stream_type, session_at, lookup_session, session_gone, to_session,
  route_id, route_uni_stream, panics, enqueue_uni_stream,
}
use quixiot.SharedConn.Registry.{IsSound}

routed_id :
    (q : Varint) (c : ℕ) (rest : Bytes) (w : Client) (s : ℕ)
    → route_id q c w rest ≡ to_session s
    → (id : ℕ) × (session_at (w.conns c).sessions id ≡ some s)
unfolding route_id lookup_session
routed_id q c rest w s e = elim (Option-cases (q.parse rest)) [
  | inl none_there ↦ absurd (ground (arith, e, none_there))
  | inr ((id, n), p) ↦ elim (Option-cases (session_at (w.conns c).sessions id)) [
    | inl gone ↦ absurd (ground (arith, e, p, gone))
    | inr (r, found) ↦ (id, found ∙ ground (arith, e, p, found))
  ]
]

routed :
    (q : Varint) (c : ℕ) (bytes : Bytes) (w : Client) (s : ℕ)
    → route_uni_stream q c bytes w ≡ to_session s
    → (id : ℕ) × (session_at (w.conns c).sessions id ≡ some s)
unfolding route_uni_stream
routed q c bytes w s e = elim (Option-cases (q.parse bytes)) [
  | inl none_there ↦ absurd (ground (arith, e, none_there))
  | inr ((typ, n), p) ↦ elim (Bool-cases (typ == web_transport_uni_stream_type)) [
    | inl y ↦ routed_id q c (drop n bytes) w s (ground (arith, e, p, y))
    | inr other ↦ absurd (ground (arith, e, p, other))
  ]
]

-- In a sound state. A stream that starts with the type of a WebTransport stream and a session's ID goes to
-- the session that the connection lists under that ID, and is given up where it lists none. A session
-- that a stream goes to was made for the connection and is not closed, so that the stream, if it is handed
-- over at once, makes no panic; once the session is closed, it can.
pub route_uni_stream_lists :
    (q : Varint) (c : ℕ) (w : Client)
    → IsSound w
    → ((id : ℕ) (rest : Bytes)
        → id < 2 ^ 62
        → route_uni_stream q c
            (q.append [] web_transport_uni_stream_type ++ (q.append [] id ++ rest))
            w
          ≡ elim (lookup_session c id w) [ none ↦ session_gone | some s ↦ to_session s ])
      × ((bytes : Bytes) (s : ℕ)
          → route_uni_stream q c bytes w ≡ to_session s
          → ((w.session s).shared ≡ c)
            × ((w.session s).closed ≡ false)
            × ((choice : Bool) (stream : ℕ) → enqueue_uni_stream choice s stream w ≢ panics))
      × ((s stream : ℕ)
          → (w.session s).closed ≡ true
          → enqueue_uni_stream false s stream w ≡ panics)
unfolding route_uni_stream route_id enqueue_uni_stream
route_uni_stream_lists q c w h = (
  λ id rest lt.
      let first =
        q.parse-append web_transport_uni_stream_type (q.append [] id ++ rest) (omega arith) in
      let second = q.parse-append id rest lt in
      let cut = drop-append (q.append [] web_transport_uni_stream_type) (q.append [] id ++ rest) in
      rw (route_uni_stream, first, cut, route_id, second) refl,
  λ bytes s e.
      let (id, found) = routed q c bytes w s e in
      let (_, own, _, on) = h.listed c id s found in
      (own, on, λ choice stream p. ground (arith, p, on)),
  λ s stream e. ground (arith, e),
)
