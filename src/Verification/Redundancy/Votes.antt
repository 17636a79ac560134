-- ===== src/Verification/Redundancy/Votes.antt =====
-- The map of votes counts, for each result, the replicas that reported it.
use compute_markets.Prelude.{
  ℕ, ◌+◌, ◌≤◌, ◌<◌, ◌≡◌, ◌≢◌, sym, subst, ◌∙◌, String, List, [], ◌∷◌, some, All, Occurs, All-Occurs,
  Occurs-middle, head_of_Occurs, ◌⊎◌, not, Ordered, str_eq, eq_iff, if◌then◌else◌, Bool-cases,
  arith, inl, inr,
}
use compute_markets.Prelude.Int.{pos, ◌≤ℤ◌, leb_ℤ, ltb_ℤ}
use compute_markets.Prelude.Sorting.Laws.{sort-Occurs, first_best, best-Leads}
use compute_markets.Verification.Redundancy.{ReplicaResult, vote, count_votes, vote_order, winner}

-- How many of the replicas reported this result.
abbrev pub count : String → List ReplicaResult → ℕ
count hash [] = 0
count hash (r ∷ rs) = (if str_eq r.result_hash hash then 1 else 0) + count hash rs

-- `votes.get(hash) ?? 0`.
abbrev votes_of : String → List (String × ℕ) → ℕ
votes_of hash [] = 0
votes_of hash ((k, n) ∷ votes) = let rest = votes_of hash votes in if str_eq k hash then n else rest

abbrev Differs : String × ℕ → String × ℕ → Type 0
Differs a b = a.0 ≢ b.0

votes_of-vote :
    (hash cast : String) (votes : List (String × ℕ))
    → votes_of hash (vote cast votes) ≡ (if str_eq cast hash then 1 else 0) + votes_of hash votes
unfolding vote
votes_of-vote hash cast [] = ground arith
votes_of-vote hash cast ((k, n) ∷ votes) =
    ground (arith, votes_of-vote hash cast votes, eq_iff k cast, eq_iff k hash, eq_iff cast hash)

votes_of-count_votes :
    (hash : String) (rs : List ReplicaResult) (votes : List (String × ℕ))
    → votes_of hash (count_votes votes rs) ≡ votes_of hash votes + count hash rs
unfolding count_votes
votes_of-count_votes hash [] votes = omega arith
votes_of-count_votes hash (r ∷ rs) votes = omega (
  arith,
  votes_of-count_votes hash rs (vote r.result_hash votes),
  votes_of-vote hash r.result_hash votes,
)

vote-All :
    (key : String × ℕ) (cast : String) (votes : List (String × ℕ))
    → key.0 ≢ cast
    → All (Differs key) votes
    → All (Differs key) (vote cast votes)
unfolding vote
vote-All key cast [] h k = (h, tt)
vote-All key cast ((k, n) ∷ votes) h (d, ds) = ground (arith, vote-All key cast votes h ds)

vote-Ordered :
    (cast : String) (votes : List (String × ℕ))
    → Ordered Differs votes
    → Ordered Differs (vote cast votes)
unfolding vote
vote-Ordered cast [] h = (tt, tt)
vote-Ordered cast ((k, n) ∷ votes) (d, ds) = elim (Bool-cases (str_eq k cast)) [
  | inl same ↦ rw same (d, ds)
  | inr other ↦ rw other (
    vote-All (k, n) cast votes (λ e. cc ((eq_iff k cast).1 e, other)) d,
    vote-Ordered cast votes ds,
  )
]

count_votes-Ordered :
    (rs : List ReplicaResult) (votes : List (String × ℕ))
    → Ordered Differs votes
    → Ordered Differs (count_votes votes rs)
unfolding count_votes
count_votes-Ordered [] votes h = h
count_votes-Ordered (r ∷ rs) votes h =
    count_votes-Ordered rs (vote r.result_hash votes) (vote-Ordered r.result_hash votes h)

-- With every key at one place, an entry of the map is what `get` finds.
votes_of-Occurs :
    (hash : String) (n : ℕ) (votes : List (String × ℕ))
    → Ordered Differs votes
    → Occurs (hash, n) votes
    → votes_of hash votes ≡ n
votes_of-Occurs hash n [] h o = elim o [ ]
votes_of-Occurs hash n ((k, m) ∷ votes) (d, ds) (inl e) = ground (arith, eq_iff k hash)
votes_of-Occurs hash n ((k, m) ∷ votes) (d, ds) (inr o) = ground (
  arith,
  eq_iff k hash,
  votes_of-Occurs hash n votes ds o,
  All-Occurs (Differs (k, m)) (hash, n) votes d o,
)

Occurs-of_votes :
    (hash : String) (n : ℕ) (votes : List (String × ℕ))
    → votes_of hash votes ≡ n
    → 0 < n
    → Occurs (hash, n) votes
Occurs-of_votes hash n [] e h = absurd (omega arith)
Occurs-of_votes hash n ((k, m) ∷ votes) e h = elim (Bool-cases (str_eq k hash)) [
  | inl same ↦ inl (cc (same, e, (eq_iff k hash).0 same))
  | inr other ↦ inr (Occurs-of_votes hash n votes (ground arith) h)
]

-- The winner's votes are the replicas that reported it, and no result was reported more often.
pub record IsPlurality (rs : List ReplicaResult) (hash : String) (matches : ℕ) : Type 0 where
  pub counted : count hash rs ≡ matches
  pub most : (other_hash : String) → count other_hash rs ≤ matches

votes_of-all :
    (hash : String) (rs : List ReplicaResult) → votes_of hash (count_votes [] rs) ≡ count hash rs
votes_of-all hash rs = omega (arith, votes_of-count_votes hash rs [])

no_more :
    (rs : List ReplicaResult) (entry : String × ℕ) (other_hash : String)
    → All (λ x. vote_order entry x ≤ℤ pos 0) (count_votes [] rs)
    → count other_hash rs ≤ entry.1
unfolding vote_order
no_more rs entry other_hash leads =
    let reported = count other_hash rs in
    elim (zero_or_more reported) [
      | inl none_at_all ↦ omega arith
      | inr some_votes ↦
          let votes = count_votes [] rs in
          let same = votes_of-all other_hash rs in
          let place = Occurs-of_votes other_hash reported votes same some_votes in
          ground (
            arith,
            All-Occurs (λ x. vote_order entry x ≤ℤ pos 0) (other_hash, reported) votes leads place,
          )
    ]
  where
    zero_or_more : (n : ℕ) → (n ≡ 0) ⊎ (0 < n)
    zero_or_more n = ground arith

pub winner-IsPlurality :
    (rs : List ReplicaResult) (hash : String) (matches : ℕ)
    → winner rs ≡ some (hash, matches)
    → IsPlurality rs hash matches
unfolding winner vote_order
winner-IsPlurality rs hash matches h =
    let votes = count_votes [] rs in
    let best = first_best vote_order total trans votes (hash, matches) h in
    record {
      counted =
          sym (votes_of-all hash rs)
          ∙ votes_of-Occurs hash matches votes (count_votes-Ordered rs [] tt) (
              subst (Occurs (hash, matches)) (sym best.split)
                (Occurs-middle (hash, matches) best.before best.after));
      most = λ other_hash.
          no_more rs (hash, matches) other_hash
            (best-Leads vote_order total trans votes (hash, matches) best);
    }
  where
    total :
        (a b : String × ℕ) → ltb_ℤ (vote_order a b) (pos 0) ≡ not (leb_ℤ (vote_order b a) (pos 0))
    total a b = ground arith

    trans :
        (a b c : String × ℕ)
        → vote_order a b ≤ℤ pos 0
        → vote_order b c ≤ℤ pos 0
        → vote_order a c ≤ℤ pos 0
    trans a b c h k = ground arith

pub winner_of_some :
    (r : ReplicaResult) (rs : List ReplicaResult)
    → (entry : String × ℕ) × (winner (r ∷ rs) ≡ some entry)
unfolding winner
winner_of_some r rs =
    let reported = count r.result_hash (r ∷ rs) in
    head_of_Occurs (r.result_hash, reported) _
      (sort-Occurs vote_order (r.result_hash, reported) (count_votes [] (r ∷ rs))
        (Occurs-of_votes r.result_hash reported (count_votes [] (r ∷ rs))
          (votes_of-all r.result_hash (r ∷ rs))
          (ground (arith, eq_iff r.result_hash r.result_hash))))
