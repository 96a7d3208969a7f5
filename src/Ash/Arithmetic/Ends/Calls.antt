-- ===== src/Ash/Arithmetic/Ends/Calls.antt =====
-- ash/arithmetic.c: each function of the evaluator keeps to its cost if the calls that it makes
-- keep to theirs.
use minilib_ports.Common.{
  ℕ, zero, suc, ◌+◌, ◌-◌, ◌*◌, ◌≤◌, ◌<◌, ◌≡◌, ◌≢◌, refl, Bool, true, false, not, ◌&&◌, ◌||◌, arith,
  ◌==◌, leb, if◌then◌else◌, Bytes,
}
use minilib_ports.Common.Word.{minus_one, negate, flag}
use minilib_ports.Ash.ArithToken.Consumes.{ReadsDigits, weight}
use minilib_ports.Ash.ArithToken.Tokens
use minilib_ports.Ash.ArithToken.Tokens.{TokenVal}
use minilib_ports.Ash.Arithmetic.Ends.Steps.{
  Leaves, step_token, step_self, step_still, step_if, step_map, step_leaves, last_self, loosen,
}
use minilib_ports.Ash.Arithmetic.Ends.Cost.{
  least, mass, size, measure, cost, Good, word_of-Still, name_of-Still, arith_lookupvarint-Still,
  assign-Still, value_of-Still, Still, do_binop-Still,
}
use minilib_ports.Ash.Arithmetic.Eval.{
  Call, primary, binop2, land, lor, cond, assignment, comma_list, comma_rest, operand,
  primary_paren, primary_suffix, primary_var, primary_prefix, eval_primary, binop2_round,
  eval_binop2, binop, eval_and, eval_or, cond_else, eval_cond, assign_result, is_assignment,
  eval_assignment, eval_comma_rest, eval_comma_list, eval,
}
use minilib_ports.Ash.Arithmetic.Operators.{
  arith_max_prec, arith_prec, higher_prec, is_binop, do_binop,
}
use minilib_ports.Ash.Arithmetic.Shell.{
  Shell, State, M, ◌>>=◌, pure, lift, reader, token, number_of, word_of, name_of,
  arith_lookupvarint, assign,
}

binop-weight : (t : ℕ) → is_binop t ≡ true → weight t ≡ 1
unfolding is_binop
binop-weight t h = ground arith

module _ (sh : Shell) (reads : ReadsDigits (reader sh)) (self : Call → M sh.Vars ℕ) (n : ℕ)
    (ih : (c : Call) (s : State sh.Vars) → cost c s < n → Good c s (self c s)) where
  call :
      (d k : ℕ) (c : Call) (f : ℕ → M sh.Vars ℕ) (s : State sh.Vars)
      → cost c s < n
      → ((a : ℕ) (s' : State sh.Vars) → size s' + least c ≤ measure c s → Leaves d k (f a s'))
      → Leaves d k ((self c >>= f) s)
  call = step_self sh self n ih

  last :
      (d k : ℕ) (c : Call) (s : State sh.Vars)
      → cost c s < n
      → measure c s + d ≤ k + least c
      → Leaves d k (self c s)
  last = last_self sh self n ih

  scan :
      (d k : ℕ) (f : ℕ → M sh.Vars ℕ) (s : State sh.Vars)
      → ((t : ℕ) (s' : State sh.Vars)
          → mass s' + weight t ≤ mass s
          → s'.last_token ≡ s.last_token
          → Leaves d k (f t s'))
      → Leaves d k ((token sh >>= f) s)
  scan = step_token sh reads

  primary_paren-Leaves :
      (op : ℕ) (noeval : Bool) (s : State sh.Vars)
      → 8 * (mass s + weight op) + 7 < n
      → Leaves 0 (mass s + weight op) (primary_paren sh self op noeval s)
  unfolding primary_paren
  primary_paren-Leaves op noeval s h =
      let k = mass s + weight op in
      call 0 k (comma_list op noeval) _ s h λ result s' p.
        step_if 0 k (s'.last_token == Tokens.rparen) _ _ s'
          (λ e. scan 0 k _ s' λ t s'' q r. ground arith) (λ e. cc)

  number_of-Leaves :
      (v : TokenVal) (k : ℕ) (s : State sh.Vars) → size s ≤ k → Leaves 0 k (number_of v s)
  unfolding number_of
  number_of-Leaves v k s h = ground arith

  word_of-Leaves :
      (v : TokenVal) (k : ℕ) (s : State sh.Vars) → size s ≤ k → Leaves 0 k (word_of sh v s)
  unfolding word_of
  word_of-Leaves v k s h = ground arith

  assign-Leaves :
      (name : Bytes) (w : ℕ) (f : Unit {0} → M sh.Vars ℕ) (k : ℕ) (s : State sh.Vars)
      → ((s' : State sh.Vars)
          → mass s' ≡ mass s
          → s'.last_token ≡ s.last_token
          → Leaves 0 k (f tt s'))
      → Leaves 0 k ((assign sh name w >>= f) s)
  assign-Leaves name w f k s g =
      step_still 0 k (assign sh name w) f s (assign-Still sh name w s) λ a s' p q. g s' p q

  primary_suffix-Leaves :
      (v : TokenVal) (op : ℕ) (noeval : Bool) (result : ℕ) (s : State sh.Vars)
      → Leaves 0 (mass s + weight op) (primary_suffix sh self v op noeval result s)
  unfolding primary_suffix
  primary_suffix-Leaves v op noeval result s =
      let k = mass s + weight op in
      step_if 0 k (op == Tokens.incr || op == Tokens.decr) _ _ s
        (λ e. scan 0 k _ s λ t s' p q.
          step_if 0 k noeval _ _ (record s' { last_token = t })
            (λ e'. word_of-Leaves v k (record s' { last_token = t }) (omega arith))
            (λ e'.
              step_still 0 k (name_of sh v) _ (record s' { last_token = t })
                (name_of-Still sh v (record s' { last_token = t }))
                λ name s'' p' q'. assign-Leaves name _ _ k s'' λ s₃ p₃ q₃. ground arith))
        (λ e. omega arith)

  primary_var-Leaves :
      (v : TokenVal) (op : ℕ) (noeval : Bool) (s : State sh.Vars)
      → Leaves 0 (mass s + weight op) (primary_var sh self v op noeval s)
  unfolding primary_var
  primary_var-Leaves v op true s =
      let k = mass s + weight op in
      step_still 0 k (word_of sh v) _ s (word_of-Still sh v s)
        λ result s' p q. ground (arith, primary_suffix-Leaves v op true result s')
  primary_var-Leaves v op false s =
      let k = mass s + weight op in
      step_still 0 k (name_of sh v >>= arith_lookupvarint sh) _ s (value_of-Still sh v s)
        λ result s' p q. ground (arith, primary_suffix-Leaves v op false result s')

  primary_prefix-Leaves :
      (t : ℕ) (v : TokenVal) (op : ℕ) (noeval : Bool) (s : State sh.Vars)
      → Leaves 0 (mass s + weight op) (primary_prefix sh self t v op noeval s)
  unfolding primary_prefix
  primary_prefix-Leaves t v op noeval s =
      let k = mass s + weight op in
      step_if 0 k (op == Tokens.var) _ _ s
        (λ e. scan 0 k _ s λ next s' p q.
          let u = record s' { last_token = next } in
          step_if 0 k noeval _ _ u (λ e'. word_of-Leaves v k u (omega arith))
            λ e'.
              step_still 0 k (name_of sh u.scanner.a_t_val) _ u
                (name_of-Still sh u.scanner.a_t_val u)
                λ name s₂ p₂ q₂.
                  step_still 0 k (arith_lookupvarint sh name) _ s₂
                    (arith_lookupvarint-Still sh name s₂)
                    λ old s₃ p₃ q₃. assign-Leaves name _ _ k s₃ λ s₄ p₄ q₄. ground arith)
        (λ e. cc)

  operand-Leaves :
      (op : ℕ) (noeval : Bool) (s : State sh.Vars)
      → 8 * (mass s + weight op) + 1 < n
      → Leaves 0 (mass s + weight op) (operand sh self op noeval s)
  operand-Leaves op noeval s h =
      let k = mass s + weight op in
      scan 0 k (λ op'. self (primary op s.scanner.a_t_val op' noeval)) s
        λ op' s' p q.
          last 0 k (primary op s.scanner.a_t_val op' noeval) s' (omega arith) (omega arith)

  eval_primary-Leaves :
      (t : ℕ) (v : TokenVal) (op : ℕ) (noeval : Bool) (s : State sh.Vars)
      → t ≢ Tokens.bad
      → 8 * (mass s + weight op) + 7 < n
      → Leaves 0 (mass s + weight op) (eval_primary sh self t v op noeval s)
  unfolding eval_primary
  eval_primary-Leaves t v op noeval s pos h =
      let k = mass s + weight op in
      let o = operand-Leaves op noeval s (omega arith) in
      let m : M sh.Vars ℕ = operand sh self op noeval in
      step_if 0 k (t == Tokens.lparen) _ _ s (λ e. primary_paren-Leaves op noeval s h)
        λ e.
          step_if 0 k (t == Tokens.num) _ _ s
            (λ e. number_of-Leaves v k (record s { last_token = op }) (omega arith))
            λ e.
              step_if 0 k (t == Tokens.var) _ _ s (λ e. primary_var-Leaves v op noeval s)
                λ e.
                  step_if 0 k (t == Tokens.add) _ _ s (λ e. o)
                    λ e.
                      step_if 0 k (t == Tokens.sub) _ _ s (λ e. step_map 0 k m negate s o)
                        λ e.
                          step_if 0 k (t == Tokens.lnot) _ _ s
                            (λ e. step_map 0 k m (λ b. flag (b == 0)) s o)
                            λ e.
                              step_if 0 k (t == Tokens.bnot) _ _ s
                                (λ e. step_map 0 k m (λ b. minus_one - b) s o)
                                λ e.
                                  step_if 0 k (t == Tokens.incr || t == Tokens.decr) _ _ s
                                    (λ e. primary_prefix-Leaves t v op noeval s) (λ e. cc)

  primary-Good :
      (t : ℕ) (v : TokenVal) (op : ℕ) (noeval : Bool) (s : State sh.Vars)
      → cost (primary t v op noeval) s ≤ n
      → Good (primary t v op noeval) s (eval_primary sh self t v op noeval s)
  unfolding eval_primary
  primary-Good zero v op noeval s h = cc
  primary-Good (suc t) v op noeval s h =
      (loosen 0 (mass s + weight op) 1 (mass s + weight (suc t) + weight op) _ (ground arith)
        (eval_primary-Leaves (suc t) v op noeval s (omega arith) (ground arith)))

  -- A round of `binop2` with its operand complete.
  round_value-Still :
      (a op : ℕ) (noeval : Bool) (b : ℕ) (s : State sh.Vars)
      → Still s ((if noeval then pure b else lift (do_binop op a b)) s)
  round_value-Still a op true b s = (refl, refl)
  round_value-Still a op false b s = do_binop-Still op a b s

  binop2_round-Leaves :
      (a op precedence : ℕ) (noeval : Bool) (b k : ℕ) (s : State sh.Vars)
      → size s + 1 ≤ k
      → 8 * k ≤ n
      → Leaves 1 k (binop2_round sh self a op precedence noeval b s)
  unfolding binop2_round
  binop2_round-Leaves a op precedence noeval b k s le h =
      step_still 1 k (if noeval then pure b else lift (do_binop op a b)) _ s
        (round_value-Still a op noeval b s)
        λ a' s' p q.
          step_if 1 k (not (is_binop s.last_token) || leb precedence (arith_prec s.last_token)) _ _
            s' (λ e. ground arith)
            (λ e.
              let w = binop-weight s.last_token (ground arith) in
              last 1 k (binop2 a' s.last_token precedence noeval) s' (omega arith) (omega arith))

  binop2-Good :
      (a op precedence : ℕ) (noeval : Bool) (s : State sh.Vars)
      → cost (binop2 a op precedence noeval) s ≤ n
      → Good (binop2 a op precedence noeval) s (eval_binop2 sh self a op precedence noeval s)
  unfolding eval_binop2
  binop2-Good a op precedence noeval s h =
      let k = suc (mass s) in
      scan 1 k _ s λ t s₁ p₁ q₁. scan 1 k _ s₁ λ next s₂ p₂ q₂.
        call 1 k (primary t s₁.scanner.a_t_val next noeval) _ s₂ (omega arith) λ b s₃ p₃.
          step_leaves 1 (mass s) 1 k
            (if is_binop s₃.last_token && higher_prec s₃.last_token op
              then self (binop2 b s₃.last_token (arith_prec op) noeval)
              else pure b)
            _ s₃
            (step_if 1 (mass s) (is_binop s₃.last_token && higher_prec s₃.last_token op) _ _ s₃
              (λ e.
                let w = binop-weight s₃.last_token (ground arith) in
                last 1 (mass s) (binop2 b s₃.last_token (arith_prec op) noeval) s₃ (omega arith)
                  (omega arith))
              (λ e. omega arith))
            λ b' s₄ p₄.
              binop2_round-Leaves a op precedence noeval b' k s₄ (omega arith) (omega arith)

  -- What `binop` leaves, for the bound of the call of `and` that it is in.
  binop-Leaves :
      (t : ℕ) (v : TokenVal) (op : ℕ) (noeval : Bool) (s : State sh.Vars)
      → 8 * (mass s + weight t + weight op) + 1 < n
      → Leaves 1 (mass s + weight t + weight op) (binop sh self t v op noeval s)
  unfolding binop
  binop-Leaves t v op noeval s h =
      let k = mass s + weight t + weight op in
      call 1 k (primary t v op noeval) _ s h λ a s' p.
        step_if 1 k (is_binop s'.last_token) _ _ s'
          (λ e.
            let w = binop-weight s'.last_token e in
            last 1 k (binop2 a s'.last_token arith_max_prec noeval) s' (omega arith) (omega arith))
          (λ e. omega arith)

  land-Good :
      (t : ℕ) (v : TokenVal) (op : ℕ) (noeval : Bool) (s : State sh.Vars)
      → cost (land t v op noeval) s ≤ n
      → Good (land t v op noeval) s (eval_and sh self t v op noeval s)
  unfolding eval_and
  land-Good t v op noeval s h =
      let k = mass s + weight t + weight op in
      step_leaves 1 k 1 k (binop sh self t v op noeval) _ s
        (binop-Leaves t v op noeval s (omega arith))
        λ a s₁ p₁.
          step_if 1 k (s₁.last_token == Tokens.land) _ _ s₁
            (λ e. scan 1 k _ s₁ λ t' s₂ p₂ q₂. scan 1 k _ s₂ λ next s₃ p₃ q₃.
              call 1 k (land t' s₂.scanner.a_t_val next (noeval || a == 0)) _ s₃ (ground arith)
                λ b s₄ p₄. ground arith)
            (λ e. omega arith)

  lor-Good :
      (t : ℕ) (v : TokenVal) (op : ℕ) (noeval : Bool) (s : State sh.Vars)
      → cost (lor t v op noeval) s ≤ n
      → Good (lor t v op noeval) s (eval_or sh self t v op noeval s)
  unfolding eval_or
  lor-Good t v op noeval s h =
      let k = mass s + weight t + weight op in
      call 1 k (land t v op noeval) _ s (omega arith) λ a s₁ p₁.
        step_if 1 k (s₁.last_token == Tokens.lor) _ _ s₁
          (λ e. scan 1 k _ s₁ λ t' s₂ p₂ q₂. scan 1 k _ s₂ λ next s₃ p₃ q₃.
            call 1 k (lor t' s₂.scanner.a_t_val next (noeval || not (a == 0))) _ s₃ (ground arith)
              λ b s₄ p₄. ground arith)
          (λ e. omega arith)

  cond_else-Leaves :
      (a b : ℕ) (noeval : Bool) (k : ℕ) (s : State sh.Vars)
      → size s + 1 ≤ k
      → 8 * k ≤ n
      → Leaves 1 k (cond_else sh self a b noeval s)
  unfolding cond_else
  cond_else-Leaves a b noeval k s le h =
      step_if 1 k (s.last_token == Tokens.colon) _ _ s
        (λ e. scan 1 k _ s λ t' s₂ p₂ q₂. scan 1 k _ s₂ λ next s₃ p₃ q₃.
          call 1 k (cond t' s₂.scanner.a_t_val next (noeval || not (a == 0))) _ s₃ (ground arith)
            λ c s₄ p₄. ground arith)
        (λ e. cc)

  cond-Good :
      (t : ℕ) (v : TokenVal) (op : ℕ) (noeval : Bool) (s : State sh.Vars)
      → cost (cond t v op noeval) s ≤ n
      → Good (cond t v op noeval) s (eval_cond sh self t v op noeval s)
  unfolding eval_cond
  cond-Good t v op noeval s h =
      let k = mass s + weight t + weight op in
      call 1 k (lor t v op noeval) _ s (omega arith) λ a s₁ p₁.
        step_if 1 k (s₁.last_token == Tokens.qmark) _ _ s₁
          (λ e. scan 1 k _ s₁ λ var s₂ p₂ q₂.
            call 1 k (assignment var (noeval || a == 0)) _ s₂ (ground arith)
              λ b s₃ p₃. cond_else-Leaves a b noeval k s₃ (ground arith) (omega arith))
          (λ e. omega arith)

  assign_result-Leaves :
      (v : TokenVal) (op result k : ℕ) (s : State sh.Vars)
      → size s ≤ k
      → Leaves 0 k (assign_result sh self v op result s)
  unfolding assign_result
  assign_result-Leaves v op result k s h =
      step_still 0 k (name_of sh v) _ s (name_of-Still sh v s) λ name s₁ p₁ q₁.
        step_if 0 k (op == Tokens.ass) _ _ s₁
          (λ e. assign-Leaves name _ _ k s₁ λ s₂ p₂ q₂. ground arith)
          (λ e.
            step_still 0 k (arith_lookupvarint sh name) _ s₁ (arith_lookupvarint-Still sh name s₁)
              λ old s₂ p₂ q₂.
                step_still 0 k (lift (do_binop (op - Tokens.ass_gap) old result)) _ s₂
                  (do_binop-Still (op - Tokens.ass_gap) old result s₂)
                  λ w s₃ p₃ q₃. assign-Leaves name _ _ k s₃ λ s₄ p₄ q₄. ground arith)

  assignment-Good :
      (t : ℕ) (noeval : Bool) (s : State sh.Vars)
      → cost (assignment t noeval) s ≤ n
      → Good (assignment t noeval) s (eval_assignment sh self t noeval s)
  unfolding eval_assignment
  assignment-Good t noeval s h =
      let k = mass s + weight t in
      scan 1 k _ s λ op s₁ p₁ q₁.
        step_if 1 k (t == Tokens.var && is_assignment op) _ _ s₁
          (λ e. scan 1 k _ s₁ λ t' s₂ p₂ q₂.
            call 1 k (assignment t' noeval) _ s₂ (ground arith) λ result s₃ p₃.
              step_if 1 k noeval _ _ s₃ (λ e'. ground arith)
                λ e'.
                  loosen 0 (size s₃) 1 k _ (ground arith)
                    (assign_result-Leaves s.scanner.a_t_val op result (size s₃) s₃ (omega arith)))
          (λ e. last 1 k (cond t s.scanner.a_t_val op noeval) s₁ (omega arith) (omega arith))

  comma_rest-Good :
      (result : ℕ) (noeval : Bool) (s : State sh.Vars)
      → cost (comma_rest result noeval) s ≤ n
      → Good (comma_rest result noeval) s (eval_comma_rest sh self result noeval s)
  unfolding eval_comma_rest
  comma_rest-Good result noeval s h =
      let k = size s in
      step_if 0 k (s.last_token == Tokens.comma) _ _ s
        (λ e. scan 0 k _ s λ t s₁ p₁ q₁.
          call 0 k (assignment t noeval) _ s₁ (ground arith)
            λ result' s₂ p₂. last 0 k (comma_rest result' noeval) s₂ (ground arith) (ground arith))
        (λ e. omega arith)

  comma_list-Good :
      (t : ℕ) (noeval : Bool) (s : State sh.Vars)
      → cost (comma_list t noeval) s ≤ n
      → Good (comma_list t noeval) s (eval_comma_list sh self t noeval s)
  unfolding eval_comma_list
  comma_list-Good t noeval s h =
      let k = mass s + weight t in
      call 1 k (assignment t noeval) _ s (omega arith)
        λ result s₁ p₁. last 1 k (comma_rest result noeval) s₁ (omega arith) (omega arith)

  -- Every function keeps to its cost.
  pub eval-Good : (c : Call) (s : State sh.Vars) → cost c s ≤ n → Good c s (eval sh self c s)
  unfolding eval
  eval-Good (primary t v op noeval) s h = primary-Good t v op noeval s h
  eval-Good (binop2 a op precedence noeval) s h = binop2-Good a op precedence noeval s h
  eval-Good (land t v op noeval) s h = land-Good t v op noeval s h
  eval-Good (lor t v op noeval) s h = lor-Good t v op noeval s h
  eval-Good (cond t v op noeval) s h = cond-Good t v op noeval s h
  eval-Good (assignment t noeval) s h = assignment-Good t noeval s h
  eval-Good (comma_list t noeval) s h = comma_list-Good t noeval s h
  eval-Good (comma_rest result noeval) s h = comma_rest-Good result noeval s h
