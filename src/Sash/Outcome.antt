-- ===== src/Sash/Outcome.antt =====
-- How a call in sash-3.8/ ends. Where a function prints a message and returns FALSE or -1, the model
-- returns the message.

pub data Stop : Type 0 where
  -- utils.c
  bad_quoted unmatched_quote mixed_wildcards expansion_error : Stop
  wildcard_directory no_directory no_matches max_files : Stop
  too_long max_command : Stop
  -- the program exits
  exit_max_args : Stop
  -- a read or write outside its object
  fault : Stop
  -- the model's fuel ran out
  no_fuel : Stop

pub data Outcome {ℓ} (A : Type ℓ) : Type ℓ where
  ok : A → Outcome A
  stop : Stop → Outcome A

infixl 5 ◌>>=◌
abbrev pub ◌>>=◌ {ℓ κ} : {A : Type ℓ} {B : Type κ} → Outcome A → (A → Outcome B) → Outcome B
ok a >>= f = f a
stop e >>= f = stop e
