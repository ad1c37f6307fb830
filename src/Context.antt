-- ===== src/Context.antt =====
-- `getCurrentContext` of src/trading/trading-broker-context.service.ts: the account that the configuration
-- names. `hash` is SHA-256 in hexadecimal, `bind` the keyed hash of a context; `none` is an exception.
pub mod Configured
use Prim.Native.String
use kis_trader_back.Common.{
  ℕ, ◌-◌, ◌≡◌, refl, String, Bool, true, false, ◌&&◌, ◌||◌, not, Option, none, some, if◌then◌else◌,
  str_eq, is_empty, trim, lower, every, length, ◌==◌, is_blank,
}
use kis_trader_back.Model.{Broker, kis, toss, BrokerContext, BrokerEnvironment, paper, prod}
use kis_trader_back.Dates.{codes, is_digit}
use kis_trader_back.Mutation.Timestamp.{take_text, drop_text}

-- The configured values, `none` what is no text.
pub record Config : Type 0 where
  pub kis_account_no : Option String
  pub kis_env : Option String
  pub kis_prod_code : Option String
  pub toss_account_no : Option String

-- `BrokerContext` with its masked account.
pub record ShownContext : Type 0 where
  pub context : BrokerContext
  pub masked_account : String

unfoldable pub is_number_of : ℕ → String → Bool
unfolding codes is_digit
is_number_of n s = every is_digit (codes s) && length (codes s) == n

unfoldable pub environment_of : String → Option BrokerEnvironment
unfolding trim lower
environment_of s =
    if str_eq (lower (trim s)) "paper"
    then some paper
    else if str_eq (lower (trim s)) "prod"
    then some prod
    else none

abbrev two_digit_code : Option String → Option String
two_digit_code none = none
two_digit_code (some s) = if is_number_of 2 (trim s) then some (trim s) else none

-- The account's own two digits, or those that are configured apart.
unfoldable pub product_code : Config → String → Option String
unfolding is_number_of trim drop_text
product_code c account =
    if is_number_of 10 account then some (drop_text 8 account) else two_digit_code c.kis_prod_code

abbrev masked_kis : String → String → String
masked_kis cano code = String.◌++◌ "****" (String.◌++◌ (drop_text 4 cano) (String.◌++◌ "-" code))

module _ (hash : String → String) where
  abbrev kis_context_of : String → Option BrokerEnvironment → Option String → Option ShownContext
  kis_context_of cano (some e) (some code) = some (record {
    context = record { broker = kis; environment = e; account_hash = hash (String.◌++◌ cano code) };
    masked_account = masked_kis cano code;
  })
  kis_context_of cano _ _ = none

  unfoldable pub kis_context : Config → Option String → Option String → Option ShownContext
  unfolding is_number_of environment_of product_code take_text trim drop_text
  kis_context c (some configured) (some environment) =
      let account = trim configured in
      if is_number_of 8 account || is_number_of 10 account
      then kis_context_of (take_text 8 account) (environment_of environment)
          (product_code c account)
      else none
  kis_context c _ _ = none

  -- `getTossContext`, and `getBrokerContext` of src/toss/toss-broker.service.ts; `toss_hash` is
  -- `hashBrokerAccount`.
  unfoldable pub toss_context : (String → String) → Option String → Option ShownContext
  unfolding trim is_blank
  toss_context toss_hash none = none
  toss_context toss_hash (some configured) =
      let account = trim configured in
      if is_empty account || is_blank (some (toss_hash account))
      then none
      else some (record {
        context = record { broker = toss; environment = prod; account_hash = toss_hash account };
        masked_account = String.◌++◌ "****" (drop_text (length (codes account) - 4) account);
      })

  unfoldable pub get_current_context : (String → String) → Config → Broker → Option ShownContext
  unfolding kis_context toss_context
  get_current_context toss_hash c kis = kis_context c c.kis_account_no c.kis_env
  get_current_context toss_hash c toss = toss_context toss_hash c.toss_account_no

pub record Preview : Type 0 where
  pub broker : Broker
  pub environment : BrokerEnvironment
  pub masked_account : String
  pub context_token : String

-- `getCurrentContextPreview` of src/trading/trading-broker-order-recovery.service.ts.
unfoldable pub get_current_context_preview :
    (BrokerContext → String) → Option ShownContext → Option Preview
get_current_context_preview bind none = none
get_current_context_preview bind (some x) = some (record {
  broker = x.context.broker;
  environment = x.context.environment;
  masked_account = x.masked_account;
  context_token = bind x.context;
})

abbrev own_code : Config
own_code = record {
  kis_account_no = some " 1234567801 ";
  kis_env = some "Paper";
  kis_prod_code = none;
  toss_account_no = none;
}

abbrev apart_code : Config
apart_code = record own_code { kis_account_no = some "12345678"; kis_prod_code = some "01" }

-- Written in one or apart, an account has one context.
one_context :
    get_current_context (λ s. s) (λ s. s) own_code kis
    ≡ get_current_context (λ s. s) (λ s. s) apart_code kis
unfolding get_current_context
one_context = refl
