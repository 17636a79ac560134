-- ===== src/Scheduler/Leases/Fencing.antt =====
-- Fencing tokens tell the owners of a lease apart, as long as no lease is released.
use compute_markets.Prelude.{
  ℕ, ◌≤◌, ◌≡◌, ◌≢◌, ◌⊎◌, refl, sym, ap, ◌∙◌, String, List, [], ◌∷◌, Option, none, some, Result, ok,
  err, All, All-weaken, Ordered, str_eq, eq_iff, Option-cases, Bool-cases, arith, inl, inr,
}
use compute_markets.Scheduler.Leases.{
  LeaseRecord, Table, find_row, put_row, is_claim, claimed_row, claim,
}

-- One call of `claim`, at a time.
pub record ClaimCall : Type 0 where
  pub at : ℕ
  pub lease : String
  pub owner : String
  pub ttl_seconds : ℕ

abbrev granted :
    Result (Option LeaseRecord × Table) → Table → (Table → List LeaseRecord) → List LeaseRecord
granted (err e) table rest = rest table
granted (ok (none, after)) table rest = rest after
granted (ok (some row, after)) table rest = row ∷ rest after

-- The leases that a sequence of calls grants, in order. A call that throws changes nothing.
unfoldable pub grants : List ClaimCall → Table → List LeaseRecord
grants [] table = []
grants (c ∷ calls) table =
    granted (claim table c.at c.lease c.owner c.ttl_seconds) table (grants calls)

-- A later grant of the same lease has a greater token, or the same token and the same owner.
pub record Fences (g h : LeaseRecord) : Type 0 where
  pub no_less : g.lease ≡ h.lease → g.fencing_token ≤ h.fencing_token
  pub same_owner : g.lease ≡ h.lease → g.fencing_token ≡ h.fencing_token → g.owner ≡ h.owner

Fences-trans : (g h k : LeaseRecord) → g.lease ≡ h.lease → Fences g h → Fences h k → Fences g k
Fences-trans g h k same first second = record {
  no_less = λ e. omega (arith, first.no_less same, second.no_less (sym same ∙ e));
  same_owner = λ e t.
      let up = first.no_less same in
      let down = second.no_less (sym same ∙ e) in
      first.same_owner same (omega arith) ∙ second.same_owner (sym same ∙ e) (omega arith);
}

find_row-put_row :
    (row : LeaseRecord) (table : Table) → find_row row.lease (put_row row table) ≡ some row
unfolding find_row put_row
find_row-put_row row [] = ground (arith, eq_iff row.lease row.lease)
find_row-put_row row (r ∷ rows) =
    ground (arith, eq_iff row.lease row.lease, find_row-put_row row rows)

find_row-put_row_other :
    (lease : String) (row : LeaseRecord) (table : Table)
    → row.lease ≢ lease
    → find_row lease (put_row row table) ≡ find_row lease table
unfolding find_row put_row
find_row-put_row_other lease row [] h = ground (arith, eq_iff row.lease lease)
find_row-put_row_other lease row (r ∷ rows) h = ground (
  arith,
  eq_iff row.lease lease,
  eq_iff r.lease row.lease,
  eq_iff r.lease lease,
  find_row-put_row_other lease row rows h,
)

find_row-lease :
    (lease : String) (table : Table) (row : LeaseRecord)
    → find_row lease table ≡ some row
    → row.lease ≡ lease
unfolding find_row
find_row-lease lease [] row h = absurd (cc)
find_row-lease lease (r ∷ rows) row h =
    ground (arith, eq_iff r.lease lease, find_row-lease lease rows row)

-- What a claim that is granted makes of the row before it.
claimed_row-Fences :
    (now ttl : ℕ) (lease owner : String) (g h : LeaseRecord)
    → claimed_row now lease owner ttl (some g) ≡ some h
    → (h.lease ≡ g.lease) × Fences g h
unfolding claimed_row
claimed_row-Fences now ttl lease owner g h e = ground (arith, eq_iff g.owner owner)

-- The three ways a claim ends.
abbrev Refused : Table → ClaimCall → Type 0
Refused table c = (e : String) × (claim table c.at c.lease c.owner c.ttl_seconds ≡ err e)

abbrev Kept : Table → ClaimCall → Type 0
Kept table c = claim table c.at c.lease c.owner c.ttl_seconds ≡ ok (none, table)

abbrev Granted : Table → ClaimCall → LeaseRecord → Type 0
Granted table c row =
    (claim table c.at c.lease c.owner c.ttl_seconds ≡ ok (some row, put_row row table))
    × (claimed_row c.at c.lease c.owner c.ttl_seconds (find_row c.lease table) ≡ some row)

claim_cases :
    (table : Table) (c : ClaimCall)
    → (Refused table c ⊎ Kept table c) ⊎ ((row : LeaseRecord) × Granted table c row)
unfolding claim
claim_cases table c = elim (Bool-cases (is_claim c.lease c.ttl_seconds)) [
  | inr bad ↦ inl (inl ("Invalid scheduler lease", rw bad refl))
  | inl good ↦
      elim (Option-cases
        (claimed_row c.at c.lease c.owner c.ttl_seconds (find_row c.lease table))) [
          | inl keep ↦ inl (inr (rw (good, keep) refl))
          | inr (row, won) ↦ inr (row, (rw (good, won) refl, won))
        ]
]

claimed_row-lease :
    (table : Table) (c : ClaimCall) (row : LeaseRecord) → Granted table c row → row.lease ≡ c.lease
unfolding claimed_row
claimed_row-lease table c row (_, h) = elim (Option-cases (find_row c.lease table)) [
  | inl free ↦ fresh (rw free at h)
  | inr (g, held) ↦
      (claimed_row-Fences c.at c.ttl_seconds c.lease c.owner g row (rw held at h)).0
      ∙ find_row-lease c.lease table g held
]
  where
    fresh : claimed_row c.at c.lease c.owner c.ttl_seconds none ≡ some row → row.lease ≡ c.lease
    fresh e = ground arith

Granted-Fences :
    (table : Table) (c : ClaimCall) (g row : LeaseRecord)
    → find_row g.lease table ≡ some g
    → Granted table c row
    → Fences g row
Granted-Fences table c g row held gained = elim (Bool-cases (str_eq c.lease g.lease)) [
  | inl same ↦
      (claimed_row-Fences c.at c.ttl_seconds c.lease c.owner g row (
        ap (claimed_row c.at c.lease c.owner c.ttl_seconds)
          (sym (ap (λ l. find_row l table) ((eq_iff c.lease g.lease).0 same) ∙ held))
        ∙ gained.1)).1
  | inr other ↦
      let differ : g.lease ≢ row.lease = λ e.
        cc ((eq_iff c.lease g.lease).1 (sym (e ∙ claimed_row-lease table c row gained)), other) in
      record { no_less = λ e. absurd (differ e); same_owner = λ e t. absurd (differ e) }
]

module _ (c : ClaimCall) (calls : List ClaimCall) (table : Table) where
  grants-Refused : Refused table c → grants (c ∷ calls) table ≡ grants calls table
  unfolding grants
  grants-Refused (e, h) = ap (λ r. granted r table (grants calls)) h

  grants-Kept : Kept table c → grants (c ∷ calls) table ≡ grants calls table
  unfolding grants
  grants-Kept h = ap (λ r. granted r table (grants calls)) h

  grants-Granted :
      (row : LeaseRecord)
      → Granted table c row
      → grants (c ∷ calls) table ≡ row ∷ grants calls (put_row row table)
  unfolding grants
  grants-Granted row (h, won) = ap (λ r. granted r table (grants calls)) h

-- The row that is kept fences all later grants.
row-Fences :
    (calls : List ClaimCall) (table : Table) (g : LeaseRecord)
    → find_row g.lease table ≡ some g
    → All (Fences g) (grants calls table)
unfolding grants
row-Fences [] table g held = tt
row-Fences (c ∷ calls) table g held = elim (claim_cases table c) [
  | inl (inl refused) ↦ rw (grants-Refused c calls table refused) (row-Fences calls table g held)
  | inl (inr kept) ↦ rw (grants-Kept c calls table kept) (row-Fences calls table g held)
  | inr (row, gained) ↦
      let fenced = Granted-Fences table c g row held gained in
      rw (grants-Granted c calls table row gained) (
        fenced,
        elim (Bool-cases (str_eq row.lease g.lease)) [
          | inl same ↦
              All-weaken (Fences row) (Fences g)
                (λ k. Fences-trans g row k (sym ((eq_iff row.lease g.lease).0 same)) fenced) _
                (row-Fences calls (put_row row table) row (find_row-put_row row table))
          | inr other ↦ row-Fences calls (put_row row table) g (
              find_row-put_row_other g.lease row table
                (λ e. cc ((eq_iff row.lease g.lease).1 e, other))
              ∙ held)
        ],
      )
]

-- In every sequence of claims from every table, at whatever times and by whatever owners, the
-- tokens of a lease never fall, and two grants of it with the same token have the same owner: a
-- new owner has a greater token than every owner before it.
pub grants-Ordered : (calls : List ClaimCall) (table : Table) → Ordered Fences (grants calls table)
unfolding grants
grants-Ordered [] table = tt
grants-Ordered (c ∷ calls) table = elim (claim_cases table c) [
  | inl (inl refused) ↦ rw (grants-Refused c calls table refused) (grants-Ordered calls table)
  | inl (inr kept) ↦ rw (grants-Kept c calls table kept) (grants-Ordered calls table)
  | inr (row, gained) ↦ rw (grants-Granted c calls table row gained) (
    row-Fences calls (put_row row table) row (find_row-put_row row table),
    grants-Ordered calls (put_row row table),
  )
]
