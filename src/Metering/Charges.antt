-- ===== src/Metering/Charges.antt =====
-- What a run of calls costs in lib/metering/redis-provider.js.
use countinghouse.Prelude.{
  ℕ, zero, suc, ◌+◌, ◌≡◌, refl, ap, List, [], ◌∷◌, Option, some, arith, if◌then◌else◌,
}
use countinghouse.Prelude.Int.{ℤ, pos, ◌-ℤ◌, ◌+ℤ◌, int_laws}
use countinghouse.Prelude.Dict.{Dict, get, get-put}
use countinghouse.Prelude.Text.{Text, text_eq, same, same_iff}
use countinghouse.Metering.{
  Entry, PriceRecord, unset, malformed, table, Account, Reply, free, charged, charge, found,
  free_calls, legacy_seed, run_script, record_call,
}

-- The free calls that an account has left for a tool, those its seed still gives included.
abbrev pub allowance_in : PriceRecord → Option Entry → Text → ℕ
allowance_in malformed seed tool = 0
allowance_in unset seed tool = free_calls seed
allowance_in (table prices) seed tool = free_calls (found (get tool prices) seed)

unfoldable pub allowance : Account → Text → ℕ
allowance account tool = allowance_in account.prices (legacy_seed account tool) tool

-- What a reply takes of a tool's free calls, and of the balance.
abbrev pub freed : Reply → ℕ
freed (free balance remaining) = 1
freed _ = 0

abbrev pub cost_of : Reply → ℤ
cost_of (charged cost balance) = cost
cost_of _ = pos 0

pub record Call : Type 0 where
  pub tool : Text
  pub cost : ℤ

-- The calls of an account, one after the other.
unfoldable pub record_calls : Account → List Call → Account × List (Call × Reply)
record_calls account [] = (account, [])
record_calls account (c ∷ cs) =
    let (after, reply) = record_call account c.tool c.cost in
    let (last, replies) = record_calls after cs in (last, (c, reply) ∷ replies)

abbrev pub total_cost : List (Call × Reply) → ℤ
total_cost [] = pos 0
total_cost ((c, reply) ∷ replies) = cost_of reply +ℤ total_cost replies

abbrev pub total_freed : Text → List (Call × Reply) → ℕ
total_freed tool [] = 0
total_freed tool ((c, reply) ∷ replies) =
    (if same tool c.tool then freed reply else 0) + total_freed tool replies

-- What one call does to the allowances and the balance.
pub record Accounts (before after : Account) (tool : Text) (reply : Reply) : Type 0 where
  pub spent :
      (t : Text) → allowance before t ≡ (if same t tool then freed reply else 0) + allowance after t
  pub paid : before.balance ≡ after.balance +ℤ cost_of reply

charge-Accounts :
    (account : Account) (prices : Dict Text Entry) (tool : Text) (cost : ℤ) (n : ℕ)
    → ((t : Text) → allowance account t ≡ free_calls (found (get t prices) (legacy_seed account t)))
    → allowance account tool ≡ n
    → Accounts account
        (charge account prices tool cost n).0
        tool
        (charge account prices tool cost n).1
unfolding allowance legacy_seed
charge-Accounts account prices tool cost zero h e = record {
  spent = λ t. ground (arith, h t);
  paid = grind int_laws;
}
charge-Accounts account prices tool cost (suc n) h e = record {
  spent = λ t. ground (
    arith,
    h t,
    get-put tool t (record { count = some n }) prices,
    same_iff t tool,
    same_iff tool t,
  );
  paid = grind int_laws;
}

shown :
    (account : Account) (prices : PriceRecord) (t : Text)
    → account.prices ≡ prices
    → allowance account t ≡ allowance_in prices (legacy_seed account t) t
unfolding allowance
shown account prices t e = ap (λ p. allowance_in p (legacy_seed account t) t) e

script-Accounts :
    (account : Account) (prices : PriceRecord) (tool : Text) (cost : ℤ)
    → account.prices ≡ prices
    → Accounts account
        (run_script account prices tool cost (legacy_seed account tool)).0
        tool
        (run_script account prices tool cost (legacy_seed account tool)).1
unfolding get
script-Accounts account unset tool cost e =
    charge-Accounts account [] tool cost (free_calls (legacy_seed account tool))
      (λ t. shown account unset t e) (shown account unset tool e)
script-Accounts account malformed tool cost e = record {
  spent = λ t. ground arith;
  paid = grind int_laws;
}
script-Accounts account (table prices) tool cost e =
    charge-Accounts account prices tool cost
      (free_calls (found (get tool prices) (legacy_seed account tool)))
      (λ t. shown account (table prices) t e) (shown account (table prices) tool e)

record_call-Accounts :
    (account : Account) (tool : Text) (cost : ℤ)
    → Accounts account (record_call account tool cost).0 tool (record_call account tool cost).1
unfolding record_call
record_call-Accounts account tool cost = script-Accounts account account.prices tool cost refl

carry : (b b₁ b₂ c t : ℤ) → b ≡ b₁ +ℤ c → b₁ ≡ b₂ +ℤ t → b ≡ b₂ +ℤ (c +ℤ t)
carry b b₁ b₂ c t h k = grind int_laws

-- Over any run of calls of an account, for any tools and costs: each tool's free calls fall by just
-- the free calls that were answered for it, and the balance by just the costs that were answered as
-- charged. Neither is spent twice, and nothing else changes them.
pub record_calls-accounts :
    (account : Account) (calls : List Call) (tool : Text)
    → (allowance account tool
        ≡ total_freed tool (record_calls account calls).1
          + allowance (record_calls account calls).0 tool)
      × (account.balance
          ≡ (record_calls account calls).0.balance +ℤ total_cost (record_calls account calls).1)
unfolding record_calls
record_calls-accounts account [] tool = (omega arith, grind int_laws)
record_calls-accounts account (c ∷ cs) tool =
    let step = record_call-Accounts account c.tool c.cost in
    let (frees, costs) = record_calls-accounts (record_call account c.tool c.cost).0 cs tool in
    (ground (arith, step.spent tool, frees), carry _ _ _ _ _ step.paid costs)

abbrev pub IsReadable : PriceRecord → Type 0
IsReadable malformed = ⊥
IsReadable _ = Unit

-- The reply to a call, by the free calls that are left.
abbrev pub reply_by : ℤ → ℤ → ℕ → Reply
reply_by balance cost zero = charged cost (balance -ℤ cost)
reply_by balance cost (suc n) = free balance n

charge-reply :
    (account : Account) (prices : Dict Text Entry) (tool : Text) (cost : ℤ) (n : ℕ)
    → (charge account prices tool cost n).1 ≡ reply_by account.balance cost n
charge-reply account prices tool cost zero = refl
charge-reply account prices tool cost (suc n) = refl

script-reply :
    (account : Account) (prices : PriceRecord) (tool : Text) (cost : ℤ)
    → IsReadable prices
    → (run_script account prices tool cost (legacy_seed account tool)).1
      ≡ reply_by account.balance cost (allowance_in prices (legacy_seed account tool) tool)
script-reply account unset tool cost h = charge-reply account [] tool cost _
script-reply account malformed tool cost h = elim h [ ]
script-reply account (table prices) tool cost h = charge-reply account prices tool cost _

-- Where the price record is readable, a call is free just while its tool has free calls left, and
-- then tells how many remain; otherwise it is charged its cost.
record_call-reply :
    (account : Account) (tool : Text) (cost : ℤ)
    → IsReadable account.prices
    → (record_call account tool cost).1 ≡ reply_by account.balance cost (allowance account tool)
unfolding record_call allowance
record_call-reply account tool cost h = script-reply account account.prices tool cost h
