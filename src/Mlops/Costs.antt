-- ===== src/Mlops/Costs.antt =====
-- `CostTracker` and `budget_status` of dealfinder/ops.py. An amount is in hundredths of a millionth of
-- a dollar, so that the cost of a call is a whole number.
use tutorial_dealfinder.Base.{
  ℕ, ◌+◌, ◌*◌, ◌≡◌, String, Option, none, some, List, [], ◌∷◌, ◌++◌, if◌then◌else◌, ltb, Dict,
  lookup, insert, get_or, string_eq, arith, Option-cases, subst, inl, inr,
}

pub record Call : Type 0 where
  pub model : String
  pub cost : ℕ
  pub in_tok : ℕ
  pub out_tok : ℕ

abbrev pub CostTracker : Type 0
CostTracker = List Call

-- `PRICES`, per token
abbrev pub prices : Dict String (ℕ × ℕ)
prices = ("gpt-4o-mini", (15, 60)) ∷ ("gpt-4o", (250, 1000)) ∷ []

-- `CostTracker.record`; none is a KeyError
unfoldable pub record_call : CostTracker → String → ℕ → ℕ → Option (CostTracker × ℕ)
record_call calls model in_tok out_tok = elim (lookup prices model) [
  | none ↦ none
  | some (p_in, p_out) ↦
      let cost = in_tok * p_in + out_tok * p_out in
      some (
        calls ++ record { model = model; cost = cost; in_tok = in_tok; out_tok = out_tok } ∷ [],
        cost,
      )
]

-- `CostTracker.total`
unfoldable pub total : CostTracker → ℕ
total [] = 0
total (c ∷ calls) = c.cost + total calls

-- the loop of `CostTracker.by_model`
unfoldable pub add_costs : Dict String ℕ → CostTracker → Dict String ℕ
add_costs out [] = out
add_costs out (c ∷ calls) =
    add_costs (insert out c.model (get_or (lookup out c.model) 0 + c.cost)) calls

-- `CostTracker.by_model`
unfoldable pub by_model : CostTracker → Dict String ℕ
by_model calls = add_costs [] calls

pub data Status : Type 0 where
  ok warn over : Status

-- `budget_status`, of a budget above zero
unfoldable pub budget_status : ℕ → ℕ → Status
budget_status spent budget =
    if ltb (10 * spent) (8 * budget) then ok else if ltb spent budget then warn else over

-- the sum of the values
unfoldable pub sum_values : Dict String ℕ → ℕ
sum_values [] = 0
sum_values ((k, v) ∷ d) = v + sum_values d

sum_values-insert :
    (d : Dict String ℕ) (k : String) (v : ℕ)
    → sum_values (insert d k (get_or (lookup d k) 0 + v)) ≡ sum_values d + v
unfolding insert lookup sum_values
sum_values-insert [] k v = omega arith
sum_values-insert ((j, x) ∷ d) k v = ground (arith, sum_values-insert d k v)

sum_values-add_costs :
    (calls : CostTracker) (d : Dict String ℕ)
    → sum_values (add_costs d calls) ≡ sum_values d + total calls
unfolding add_costs total
sum_values-add_costs [] d = omega arith
sum_values-add_costs (c ∷ calls) d = omega (
  arith,
  sum_values-add_costs calls (insert d c.model (get_or (lookup d c.model) 0 + c.cost)),
  sum_values-insert d c.model c.cost,
)

total-append : (calls more : CostTracker) → total (calls ++ more) ≡ total calls + total more
unfolding total
total-append [] more = omega arith
total-append (c ∷ calls) more = omega (arith, total-append calls more)

some_inj : {A : Type 0} {a b : A} → some a ≡ some b → a ≡ b
some_inj h = cc

added :
    (calls : CostTracker) (c : Call)
    → (total (calls ++ c ∷ []) ≡ total calls + c.cost)
      × (sum_values (by_model (calls ++ c ∷ [])) ≡ sum_values (by_model calls) + c.cost)
unfolding by_model total sum_values
added calls c =
    let grown = total-append calls (c ∷ []) in
    (
      omega (arith, grown),
      omega
          (arith, grown, sum_values-add_costs (calls ++ c ∷ []) [], sum_values-add_costs calls []),
    )

-- What the dashboard shows per model adds up to the total, before and after a call is recorded, and
-- the call adds exactly the cost that it reports.
pub record_call_lem :
    (calls after : CostTracker) (model : String) (in_tok out_tok cost : ℕ)
    → record_call calls model in_tok out_tok ≡ some (after, cost)
    → (total after ≡ total calls + cost)
      × (sum_values (by_model after) ≡ sum_values (by_model calls) + cost)
unfolding record_call by_model
record_call_lem calls after model in_tok out_tok cost h =
    elim (Option-cases (lookup prices model)) [
      | inl e ↦ absurd (ground (arith, rw (e, record_call) at h))
      | inr ((p_in, p_out), e) ↦
          let c : Call = record {
            model = model;
            cost = in_tok * p_in + out_tok * p_out;
            in_tok = in_tok;
            out_tok = out_tok;
          } in
          let same : (calls ++ c ∷ [], c.cost) ≡ (after, cost) =
            some_inj (rw (e, record_call) at h) in
          subst
            (λ x.
              (total x.0 ≡ total calls + x.1)
              × (sum_values (by_model x.0) ≡ sum_values (by_model calls) + x.1))
            same (added calls c)
    ]
