-- ===== src/Opa/Laws.antt =====
-- What a granted request has seen.
use Prim.Native.String.{◌++◌ as text_append}
use compute_markets.Prelude.{
  ℕ, zero, suc, arith, String, ◌≡◌, refl, ap, ◌∙◌, ◌↔◌, true, false, List, [], ◌∷◌, ◌++◌, Option,
  none, some, Result, ok, bind_ok, require_holds, err_not_ok,
}
use compute_markets.Json.{Json, bool}
use compute_markets.Opa.{
  ChildEvent, output_data, error_data, timed_out, failed, closed, Request, result_of, is_true,
  exited_well, expression_value, answer, handle, handle_all, enforce_opa,
}

-- The events that leave the promise pending.
abbrev pub AreChunks : List ChildEvent → Type 0
AreChunks [] = Unit
AreChunks (output_data x ∷ es) = AreChunks es
AreChunks (error_data x ∷ es) = AreChunks es
AreChunks (timed_out ∷ es) = ⊥
AreChunks (failed ∷ es) = ⊥
AreChunks (closed code ∷ es) = ⊥

-- The output when the events are over.
abbrev pub gathered : String → List ChildEvent → String
gathered text [] = text
gathered text (output_data x ∷ es) = gathered (text_append text x) es
gathered text (e ∷ es) = gathered text es

module _ (parse_json : String → Result Json) where
  -- The text is a document whose first expression has the value true.
  pub record IsGrant (text : String) : Type 0 where
    pub value : Json
    pub found : Option Json
    pub parsed : parse_json text ≡ ok value
    pub results : result_of value ≡ ok found
    pub granted : expression_value found ≡ some (bool true)

  -- The child ends with code 0, before the time is over and after it wrote a grant.
  pub record IsGranted (text : String) (events : List ChildEvent) : Type 0 where
    pub before : List ChildEvent
    pub after : List ChildEvent
    pub order : events ≡ before ++ closed (some 0) ∷ after
    pub chunks : AreChunks before
    pub grant : IsGrant (gathered text before)

  is_true-bool : (j : Option Json) → is_true j ≡ true → j ≡ some (bool true)
  is_true-bool (some (bool true)) h = refl
  is_true-bool (some (bool false)) h = absurd (cc)
  is_true-bool none h = absurd (cc)
  is_true-bool (some _) h = absurd (cc)

  exited_well-zero : (code : Option ℕ) → exited_well code ≡ true → code ≡ some 0
  exited_well-zero (some zero) h = refl
  exited_well-zero (some (suc n)) h = absurd (cc)
  exited_well-zero none h = absurd (cc)

  answer-IsGrant :
      (code : Option ℕ) (output error : String)
      → answer parse_json code output error ≡ ok tt
      → (code ≡ some 0) × IsGrant output
  unfolding answer
  answer-IsGrant none output error h = absurd (err_not_ok h)
  answer-IsGrant (some (suc n)) output error h = absurd (err_not_ok h)
  answer-IsGrant (some zero) output error h = (
    refl,
    bind_ok (parse_json output) _ h (λ value parsed h1.
        bind_ok (result_of value) _ h1 (λ found results h2. record {
          value = value;
          found = found;
          parsed = parsed;
          results = results;
          granted = is_true-bool (expression_value found) (require_holds _ _ tt h2);
        })),
  )

  IsGrant-answer :
      (output error : String) → IsGrant output → answer parse_json (some 0) output error ≡ ok tt
  unfolding answer
  IsGrant-answer output error g = rw (g.parsed, g.results, g.granted) refl

  handle_all-settled :
      (events : List ChildEvent) (s : Request) (r : Result (Unit {0}))
      → s.settled ≡ some r
      → (handle_all parse_json events s).settled ≡ some r
  unfolding handle
  handle_all-settled [] s r h = h
  handle_all-settled (output_data x ∷ es) s r h = handle_all-settled es _ r h
  handle_all-settled (error_data x ∷ es) s r h = handle_all-settled es _ r h
  handle_all-settled (timed_out ∷ es) s r h = handle_all-settled es _ r (ground arith)
  handle_all-settled (failed ∷ es) s r h = handle_all-settled es _ r (rw h refl)
  handle_all-settled (closed code ∷ es) s r h = handle_all-settled es _ r (rw h refl)

  -- A request whose promise is pending.
  abbrev pending : String → String → ℕ → Request
  pending output error kills = record {
    output = output;
    error = error;
    kills = kills;
    timer = true;
    settled = none;
  }

  other_result :
      {P : Type 0} (es : List ChildEvent) (s : Request) (r : Result (Unit {0}))
      → (handle_all parse_json es s).settled ≡ some (ok tt)
      → s.settled ≡ some r
      → (r ≡ ok tt → P)
      → P
  other_result es s r h settled k = k (cc (handle_all-settled es s r settled))

  pending-IsGranted :
      (events : List ChildEvent) (output error : String) (kills : ℕ)
      → (handle_all parse_json events (pending output error kills)).settled ≡ some (ok tt)
      → IsGranted output events
  unfolding handle
  pending-IsGranted [] output error kills h = absurd (cc)
  pending-IsGranted (output_data x ∷ es) output error kills h =
      let g = pending-IsGranted es (text_append output x) error _ h in
      record {
        before = output_data x ∷ g.before;
        after = g.after;
        order = ap (λ l. output_data x ∷ l) g.order;
        chunks = g.chunks;
        grant = g.grant;
      }
  pending-IsGranted (error_data x ∷ es) output error kills h =
      let g = pending-IsGranted es output (text_append error x) kills h in
      record {
        before = error_data x ∷ g.before;
        after = g.after;
        order = ap (λ l. error_data x ∷ l) g.order;
        chunks = g.chunks;
        grant = g.grant;
      }
  pending-IsGranted (timed_out ∷ es) output error kills h =
      other_result es _ _ h refl (λ e. absurd (err_not_ok e))
  pending-IsGranted (failed ∷ es) output error kills h =
      other_result es _ _ h refl (λ e. absurd (err_not_ok e))
  pending-IsGranted (closed code ∷ es) output error kills h =
      other_result es _ (answer parse_json code output error) h refl (λ e.
        let g = answer-IsGrant code output error e in
        record {
          before = [];
          after = es;
          order = ap (λ c. closed c ∷ es) g.0;
          chunks = tt;
          grant = g.1;
        })

  pending-granted :
      (before after : List ChildEvent) (output error : String) (kills : ℕ)
      → AreChunks before
      → IsGrant (gathered output before)
      → (handle_all parse_json
          (before ++ closed (some 0) ∷ after)
          (pending output error kills)).settled
        ≡ some (ok tt)
  unfolding handle
  pending-granted [] after output error kills chunks grant =
      handle_all-settled after _ (ok tt) (rw (IsGrant-answer output error grant) refl)
  pending-granted (output_data x ∷ es) after output error kills chunks grant =
      pending-granted es after (text_append output x) error _ chunks grant
  pending-granted (error_data x ∷ es) after output error kills chunks grant =
      pending-granted es after output (text_append error x) kills chunks grant
  pending-granted (timed_out ∷ es) after output error kills chunks grant = absurd chunks
  pending-granted (failed ∷ es) after output error kills chunks grant = absurd chunks
  pending-granted (closed code ∷ es) after output error kills chunks grant = absurd chunks

  -- Whatever the child and the timer do, the policy check succeeds exactly when the child ends with
  -- code 0 before the time is over or an error is reported, and the output it had written by then is
  -- a document whose first expression has the value true; later events change nothing.
  pub enforce_opa_iff :
      (events : List ChildEvent)
      → (enforce_opa parse_json events ≡ some (ok tt)) ↔ IsGranted "" events
  unfolding enforce_opa
  enforce_opa_iff events = (
    (λ h. pending-IsGranted events "" "" 0 h),
    λ g.
        ap (λ es. enforce_opa parse_json es) g.order
        ∙ pending-granted g.before g.after "" "" 0 g.chunks g.grant,
  )

  kept_settled :
      {P : Type 0} (es : List ChildEvent) (s : Request) (r : Result (Unit {0}))
      → (handle_all parse_json es s).settled ≡ none
      → s.settled ≡ some r
      → P
  kept_settled es s r h settled = absurd (cc (handle_all-settled es s r settled))

  pending_iff :
      (events : List ChildEvent) (output error : String) (kills : ℕ)
      → ((handle_all parse_json events (pending output error kills)).settled ≡ none)
        ↔ AreChunks events
  unfolding handle
  pending_iff [] output error kills = ((λ h. tt), λ c. refl)
  pending_iff (output_data x ∷ es) output error kills =
      pending_iff es (text_append output x) error _
  pending_iff (error_data x ∷ es) output error kills =
      pending_iff es output (text_append error x) kills
  pending_iff (timed_out ∷ es) output error kills =
      ((λ h. kept_settled es _ _ h refl), λ c. absurd c)
  pending_iff (failed ∷ es) output error kills = ((λ h. kept_settled es _ _ h refl), λ c. absurd c)
  pending_iff (closed code ∷ es) output error kills =
      ((λ h. kept_settled es _ (answer parse_json code output error) h refl), λ c. absurd c)

  -- The policy check is pending exactly while the child has only written output and error texts: the
  -- timer's end, a reported error and the child's end each settle it.
  pub enforce_opa_pending_iff :
      (events : List ChildEvent) → (enforce_opa parse_json events ≡ none) ↔ AreChunks events
  unfolding enforce_opa
  enforce_opa_pending_iff events = pending_iff events "" "" 0
