-- ===== src/Opa.antt =====
-- packages/policy/opa.ts: the policy server's command is asked once, and its answer settles the
-- promise. What the child process and the timer do is a sequence of events; what `JSON.parse` makes
-- of the output is an argument. The command line and a failure to write the input are left out.
pub mod Laws
use Prim.Native.Char.{code}
use Prim.Native.String
use Prim.Native.String.{◌++◌ as text_append}
use compute_markets.Prelude.{
  ℕ, zero, suc, ◌+◌, String, Bool, true, false, List, [], ◌∷◌, Option, none, some, Result, err, ok,
  require, ltb, ◌>>=◌, if◌then◌else◌,
}
use compute_markets.Json.{Json, null, bool, arr, obj, cons, get}

-- The code of a child that a signal ends is null.
pub data ChildEvent : Type 0 where
  output_data error_data : String → ChildEvent
  timed_out failed : ChildEvent
  closed : Option ℕ → ChildEvent

-- The handler's variables, the signals sent to the child, and how the promise is settled.
pub record Request : Type 0 where
  pub output : String
  pub error : String
  pub kills : ℕ
  pub timer : Bool
  pub settled : Option (Result (Unit {0}))

-- A text's length in the source's units: a character outside the basic plane counts twice.
abbrev pub text_units : String → ℕ
text_units String.[] = 0
text_units (String.◌∷◌ c s) = (if ltb (code c) 65536 then 1 else 2) + text_units s

-- `value.result`, which throws on null.
abbrev pub result_of : Json → Result (Option Json)
result_of null = err "Cannot read properties of null"
result_of (obj fs) = ok (get "result" fs)
result_of _ = ok none

-- `value?.[0]`; a text's first character has none of the properties that are read from it.
abbrev pub first_of : Option Json → Option Json
first_of (some (arr (cons j js))) = some j
first_of (some (obj fs)) = get "0" fs
first_of _ = none

-- `value?.key`.
abbrev pub member_of : String → Option Json → Option Json
member_of key (some (obj fs)) = get key fs
member_of key _ = none

abbrev pub is_true : Option Json → Bool
is_true (some (bool b)) = b
is_true _ = false

abbrev pub exited_well : Option ℕ → Bool
exited_well (some zero) = true
exited_well _ = false

-- `result?.[0]?.expressions?.[0]?.value`.
abbrev pub expression_value : Option Json → Option Json
expression_value found = member_of "value" (first_of (member_of "expressions" (first_of found)))

-- A promise keeps its first result.
abbrev pub settle_request : Result (Unit {0}) → Request → Request
settle_request result s = record {
  output = s.output;
  error = s.error;
  kills = s.kills;
  timer = false;
  settled = elim s.settled [ none ↦ some result | some earlier ↦ some earlier ];
}

module _ (parse_json : String → Result Json) where
  -- The body of the `close` handler's `try`.
  unfoldable pub answer : Option ℕ → String → String → Result (Unit {0})
  answer code output error =
      let denied = text_append "Execution denied by OPA: " error in
      elim (exited_well code) [
        | false ↦ err denied
        | true ↦ do
          value ← parse_json output
          found ← result_of value
          require (is_true (expression_value found)) denied
      ]

  -- Each handler; a timer that was cleared does not fire, and one that fired does not fire again.
  unfoldable pub handle : ChildEvent → Request → Request
  handle (output_data x) s =
      let text = text_append s.output x in
      record {
        output = text;
        error = s.error;
        kills = (if ltb 65536 (text_units text) then 1 else 0) + s.kills;
        timer = s.timer;
        settled = s.settled;
      }
  handle (error_data x) s = record {
    output = s.output;
    error = text_append s.error x;
    kills = s.kills;
    timer = s.timer;
    settled = s.settled;
  }
  handle timed_out s =
      if s.timer
      then settle_request (err "OPA policy check timed out") (record {
        output = s.output;
        error = s.error;
        kills = suc s.kills;
        timer = s.timer;
        settled = s.settled;
      })
      else s
  handle failed s = settle_request (err "OPA is required on provider hosts") s
  handle (closed code) s = settle_request (answer code s.output s.error) s

  abbrev pub handle_all : List ChildEvent → Request → Request
  handle_all [] s = s
  handle_all (e ∷ es) s = handle_all es (handle e s)

  -- How the promise is settled after the events, `none` while it is pending.
  unfoldable pub enforce_opa : List ChildEvent → Option (Result (Unit {0}))
  enforce_opa events =
      (handle_all events
        (record { output = ""; error = ""; kills = 0; timer = true; settled = none })).settled
