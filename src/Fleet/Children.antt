-- ===== src/Fleet/Children.antt =====
-- The children of a fleet, one by one.
use quixiot.Prelude.{
  ℕ, zero, suc, ◌+◌, ◌<◌, ◌≡◌, ◌≢◌, refl, ap, sym, ◌∙◌, true, ◌∷◌, ◌++◌, Bytes, some, get_elem?,
  length, drop, drop-append, arith, ltb,
}
use quixiot.Prelude.Int.{pos_part}
use quixiot.Prelude.Strings.{codes}
use quixiot.Roles.{digits, padded}
use quixiot.Roles.Stamps.{parse_digits}
use quixiot.Roles.Stamps.Parsing.{parse_digits-digits, parse_digits-padded}
use quixiot.Fleet.{FleetConfig, Child, host_port, child_of, children_from, children}

padded_injective : (i j : ℕ) → padded i ≡ padded j → i ≡ j
padded_injective i j e =
    let same : some i ≡ some j =
      sym (parse_digits-padded i) ∙ ap (parse_digits 0) e ∙ parse_digits-padded j in
    cc

digits_injective : (i j : ℕ) → digits (suc i) i ≡ digits (suc j) j → i ≡ j
digits_injective i j e =
    let same : some i ≡ some j =
      sym (parse_digits-digits (suc i) i (omega arith))
      ∙ ap (parse_digits 0) e
      ∙ parse_digits-digits (suc j) j (omega arith) in
    cc

host_port_injective : (host : Bytes) (i j : ℕ) → host_port host i ≡ host_port host j → i ≡ j
unfolding host_port
host_port_injective host i j e =
    let tails : 58 ∷ digits (suc i) i ≡ 58 ∷ digits (suc j) j =
      sym (drop-append host (58 ∷ digits (suc i) i))
      ∙ ap (drop (length host)) e
      ∙ drop-append host (58 ∷ digits (suc j) j) in
    digits_injective i j (ap (drop 1) tails)

children_from_lem :
    (f : FleetConfig) (i n k : ℕ)
    → k < n
    → get_elem? (children_from f i n) k ≡ some (child_of f (i + k))
unfolding children_from
children_from_lem f i zero k h = absurd (omega arith)
children_from_lem f i (suc n) zero h = ap (λ m. some (child_of f m)) (omega arith)
children_from_lem f i (suc n) (suc k) h =
    children_from_lem f (suc i) n k (omega arith) ∙ ap (λ m. some (child_of f m)) (omega arith)

length-children_from : (f : FleetConfig) (i n : ℕ) → length (children_from f i n) ≡ n
unfolding children_from
length-children_from f i zero = refl
length-children_from f i (suc n) = omega (arith, length-children_from f (suc i) n)

pub length-children : (f : FleetConfig) → length (children f) ≡ pos_part f.count
unfolding children
length-children f = length-children_from f 0 (pos_part f.count)

same_port : (base i j : ℕ) → base + i ≡ base + j → i ≡ j
same_port base i j e = omega (arith, e)

-- The child of a place, with its port.
pub record IsChild (f : FleetConfig) (k : ℕ) (c : Child) : Type 0 where
  pub id : c.id ≡ codes "fleet-" ++ padded k
  pub metrics_addr :
      c.metrics_addr ≡ host_port (codes "127.0.0.1") (pos_part f.metrics_port_base + k)
  pub scrape_addr : c.scrape_addr ≡ host_port f.metrics_host (pos_part f.metrics_port_base + k)

module _ (f : FleetConfig) (metered : 0 < pos_part f.metrics_port_base) where
  child_of-IsChild : (k : ℕ) → IsChild f k (child_of f k)
  unfolding child_of
  child_of-IsChild k =
      let on : ltb 0 (pos_part f.metrics_port_base) ≡ true = ground (arith, metered) in
      record { id = refl; metrics_addr = rw on refl; scrape_addr = rw on refl }

  child_at : (k : ℕ) → k < pos_part f.count → get_elem? (children f) k ≡ some (child_of f k)
  unfolding children
  child_at k h =
      children_from_lem f 0 (pos_part f.count) k h ∙ ap (λ m. some (child_of f m)) (omega arith)

  -- Where the base of the ports is not 0, a fleet has for each place below its count a child, with the place
  -- in its ID, and with the base and the place as the port of its two addresses, also above 65535. The
  -- children of two places have neither the ID nor an address in common.
  pub children_distinct :
      (i j : ℕ)
      → i < pos_part f.count
      → j < pos_part f.count
      → i ≢ j
      → (a : Child) × (b : Child) × (get_elem? (children f) i ≡ some a)
        × (get_elem? (children f) j ≡ some b)
        × IsChild f i a
        × IsChild f j b
        × (a.id ≢ b.id)
        × (a.metrics_addr ≢ b.metrics_addr)
        × (a.scrape_addr ≢ b.scrape_addr)
  children_distinct i j hi hj other =
      let base = pos_part f.metrics_port_base in
      let a = child_of-IsChild i in
      let b = child_of-IsChild j in
      let apart = λ (host : Bytes) (e : host_port host (base + i) ≡ host_port host (base + j)).
        other (same_port base i j (host_port_injective host (base + i) (base + j) e)) in
      (
        child_of f i,
        child_of f j,
        child_at i hi,
        child_at j hj,
        a,
        b,
        λ e. other (padded_injective i j (ap (drop 6) (sym a.id ∙ e ∙ b.id))),
        λ e. apart (codes "127.0.0.1") (sym a.metrics_addr ∙ e ∙ b.metrics_addr),
        λ e. apart f.metrics_host (sym a.scrape_addr ∙ e ∙ b.scrape_addr),
      )
