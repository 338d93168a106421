-- ===== src/Godot/Answering.antt =====
-- sm.go: the parsers of the parts of a packet answer, and keep what stands at its front.
use gta.Base.{
  drop, take, ap, sym, none, subst, some, ℕ, zero, suc, ◌+◌, ◌-◌, ◌≤◌, ◌≡◌, refl, Bool, true, false,
  Option, List, length, arith, leb, ltb, eqb, if◌then◌else◌, if_elim,
}
use gta.Godot.Buffer.{little_endian, Read, got, ◌>>=◌, map_read, or_panic, slice, take_bytes}
use gta.Godot.Values.{Value, Values, Sprintf}
use gta.Godot.Bounds.{Sound-widen, Sound, moved, failed, Sound-widen}
use gta.Godot.Nesting.{decode_variant_arg-Sound}
use gta.Godot.Packets.{
  with_node, SmPacket, and_more, read_args, bytes_at, number_at, parse_sys, past_separator,
  parse_simplify_path, parse_confirm_path, args_end, arg_rounds, parse_args, parse_call,
  parse_command, parse_node,
}

-- A read that succeeds, with a value and an offset that `P` holds of.
pub data Answers {ℓ} {A : Type ℓ} (P : A → ℕ → Type 0) : Read A → Type ℓ where
  answers : {a : A} {o : ℕ} → P a o → Answers P (got a o)

abbrev Anywhere {ℓ} : {A : Type ℓ} → A → ℕ → Type 0
Anywhere a o = Unit

abbrev Ends {ℓ} : {A : Type ℓ} → ℕ → A → ℕ → Type 0
Ends end a o = o ≡ end

-- The packet has the meta byte, the command and the node of another.
abbrev pub SameHead : SmPacket → SmPacket → ℕ → Type 0
SameHead p q o =
    (q.meta ≡ p.meta)
    × (q.cmd ≡ p.cmd)
    × (q.cmd_name ≡ p.cmd_name)
    × (q.node_is_path ≡ p.node_is_path)
    × (q.node_psc ≡ p.node_psc)

module _ {ℓ} {A : Type ℓ} {P : A → ℕ → Type 0} where
  Answers-bind {κ} :
      {B : Type κ} {Q : B → ℕ → Type 0} {r : Read A} {f : A → ℕ → Read B}
      → Answers P r
      → ((a : A) (o : ℕ) → P a o → Answers Q (f a o))
      → Answers Q (r >>= f)
  Answers-bind (answers {a} {o} h) k = k a o h

  Answers-map_read {κ} :
      {B : Type κ} {Q : B → ℕ → Type 0} (f : A → B) {r : Read A}
      → Answers P r
      → ((a : A) (o : ℕ) → P a o → Q (f a) o)
      → Answers Q (map_read f r)
  Answers-map_read f (answers {a} {o} h) k = answers (k a o h)

  pub Answers-if :
      (b : Bool) {r s : Read A}
      → (b ≡ true → Answers P r)
      → (b ≡ false → Answers P s)
      → Answers P (if b then r else s)
  Answers-if true p q = p refl
  Answers-if false p q = q refl

-- A list of arguments is answered even where one of them fails.
and_more-Answers :
    {r : Read Value} {least most : ℕ} (rest : ℕ → Read Values) (o : ℕ)
    → Sound least most r
    → ((o' : ℕ) → Answers Anywhere (rest o'))
    → Answers Anywhere (and_more r rest o)
unfolding and_more
and_more-Answers rest o (moved {a} {o = o'} low high) k = Answers-map_read _ (k o') (λ a q t. tt)
and_more-Answers rest o failed k = answers tt

read_args-Answers :
    {item : ℕ → Read Value} (least most n o : ℕ)
    → ((o' : ℕ) → Sound least most (item o'))
    → Answers Anywhere (read_args item n o)
unfolding read_args
read_args-Answers least most zero o each = answers tt
read_args-Answers {item} least most (suc n) o each =
    and_more-Answers (read_args item n) o (each o) (λ o'. read_args-Answers least most n o' each)

module _ (pkt : List ℕ) where
  bytes_at-Answers : (n o : ℕ) → o + n ≤ length pkt → Answers (Ends (o + n)) (bytes_at pkt n o)
  unfolding bytes_at take_bytes slice
  bytes_at-Answers n o h =
      if_elim (λ (s : Option (List ℕ)). Answers (Ends (o + n)) (or_panic s (o + n)))
        (leb (o + n) (length pkt)) _ _ (λ e. answers refl) (λ e. absurd (ground (arith, e, h)))

  number_at-Answers : (n o : ℕ) → o + n ≤ length pkt → Answers (Ends (o + n)) (number_at pkt n o)
  unfolding number_at
  number_at-Answers n o h = Answers-map_read _ (bytes_at-Answers n o h) (λ a q e. e)

  pub parse_sys-Answers : (p : SmPacket) (o : ℕ) → Answers (SameHead p) (parse_sys pkt p o)
  unfolding parse_sys
  parse_sys-Answers p o =
      Answers-if (leb (length pkt) o) (λ e. answers (refl, refl, refl, refl, refl))
        (λ e.
          Answers-bind (number_at-Answers 1 o (ground (arith, e)))
            (λ sys o' h. answers (refl, refl, refl, refl, refl)))

  past_separator-Answers : (o : ℕ) → Answers Anywhere (past_separator pkt o)
  unfolding past_separator
  past_separator-Answers o =
      Answers-if (ltb o (length pkt))
        (λ e. Answers-bind (number_at-Answers 1 o (ground (arith, e))) (λ b o' h. answers tt))
        (λ e. answers tt)

  parse_simplify_path-Answers :
      (p : SmPacket) (o : ℕ) → Answers (SameHead p) (parse_simplify_path pkt p o)
  unfolding parse_simplify_path
  parse_simplify_path-Answers p o =
      Answers-if (ltb (length pkt) (o + 32)) (λ e. answers (refl, refl, refl, refl, refl))
        (λ e. Answers-bind (bytes_at-Answers 32 o (ground (arith, e))) (λ hash o' h.
          Answers-bind (past_separator-Answers o') (λ b q t.
            Answers-if (ltb (length pkt) (q + 4)) (λ e'. answers (refl, refl, refl, refl, refl))
              (λ e'.
                Answers-bind (number_at-Answers 4 q (ground (arith, e')))
                  (λ id q' h'. answers (refl, refl, refl, refl, refl))))))

  parse_confirm_path-Answers :
      (p : SmPacket) (o : ℕ) → Answers (SameHead p) (parse_confirm_path pkt p o)
  unfolding parse_confirm_path
  parse_confirm_path-Answers p o =
      Answers-if (leb (o + 4) (length pkt))
        (λ e.
          Answers-bind (number_at-Answers 4 o (ground (arith, e)))
            (λ id o' h. answers (refl, refl, refl, refl, refl)))
        (λ e. answers (refl, refl, refl, refl, refl))

  args_end-le : (target : ℕ) → args_end pkt target ≤ length pkt
  unfolding args_end
  args_end-le target = ground arith

  parse_args-Answers :
      (fmt : Sprintf) (p : SmPacket) (end o : ℕ)
      → end ≤ length pkt
      → Answers (SameHead p) (parse_args pkt fmt p end o)
  unfolding parse_args
  parse_args-Answers fmt p end o within =
      Answers-if (leb end o) (λ e. answers (refl, refl, refl, refl, refl))
        (λ e. Answers-bind (number_at-Answers 1 o (ground (arith, e, within))) (λ argc o' h.
          Answers-map_read _
            (read_args-Answers 0 (length pkt + 3) (arg_rounds pkt argc) o' (λ q.
              Sound-widen
                (decode_variant_arg-Sound fmt (record { b = pkt; end = end }) (suc (length pkt)) q
                  (omega arith) (omega arith))
                (omega arith) (omega arith)))
            (λ a q t. (refl, refl, refl, refl, refl))))

  parse_call-Answers :
      (fmt : Sprintf) (only_bytes : Bool) (p : SmPacket) (end o : ℕ)
      → end ≤ length pkt
      → Answers (SameHead p) (parse_call pkt fmt only_bytes p end o)
  unfolding parse_call
  parse_call-Answers fmt only_bytes p end o within =
      Answers-if (leb end o) (λ e. answers (refl, refl, refl, refl, refl))
        (λ e. Answers-bind (number_at-Answers 1 o (ground (arith, e, within))) (λ name o' h.
          Answers-if only_bytes
            (λ e'.
              Answers-map_read _ (bytes_at-Answers (end - o') o' (ground (arith, e, within, h)))
                (λ a q t. (refl, refl, refl, refl, refl)))
            (λ e'. parse_args-Answers fmt _ end o' within)))

  -- The packet once the id of its node is read.
  abbrev noded : SmPacket → ℕ → SmPacket
  noded p target = if eqb p.cmd 0 then with_node pkt p target else p

  noded-other : (p : SmPacket) (target : ℕ) → eqb p.cmd 0 ≡ false → noded p target ≡ p
  noded-other p target e = ap (λ b. if b then with_node pkt p target else p) e

  noded-call :
      (p : SmPacket) (target : ℕ) → eqb p.cmd 0 ≡ true → noded p target ≡ with_node pkt p target
  noded-call p target e = ap (λ b. if b then with_node pkt p target else p) e

  parse_command-Answers :
      (fmt : Sprintf) (p : SmPacket) (target o : ℕ)
      → Answers (SameHead (noded p target)) (parse_command pkt fmt p target o)
  unfolding parse_command
  parse_command-Answers fmt p target o =
      Answers-if (eqb p.cmd 1) (λ e. of_other (ground (arith, e)) (parse_simplify_path-Answers p o))
        (λ e.
          Answers-if (eqb p.cmd 2)
            (λ e'. of_other (ground (arith, e')) (parse_confirm_path-Answers p o))
            (λ e'.
              Answers-if (eqb p.cmd 0)
                (λ e''.
                  subst (λ z. Answers (SameHead z) call) (sym (noded-call p target e''))
                    (parse_call-Answers fmt (leb 128 p.meta) (with_node pkt p target)
                      (args_end pkt target) o (args_end-le target)))
                (λ e''. of_other e'' (answers (refl, refl, refl, refl, refl)))))
    where
      call : Read SmPacket
      call = parse_call pkt fmt (leb 128 p.meta) (with_node pkt p target) (args_end pkt target) o

      of_other :
          {r : Read SmPacket}
          → eqb p.cmd 0 ≡ false
          → Answers (SameHead p) r
          → Answers (SameHead (noded p target)) r
      of_other {r} e = subst (λ z. Answers (SameHead z) r) (sym (noded-other p target e))

  number_at-value :
      (n o : ℕ)
      → o + n ≤ length pkt
      → number_at pkt n o ≡ got (little_endian (take n (drop o pkt))) (o + n)
  unfolding number_at bytes_at take_bytes slice
  number_at-value n o h =
      if_elim
        (λ (z : Option (List ℕ)).
          map_read little_endian (or_panic z (o + n))
          ≡ got (little_endian (take n (drop o pkt))) (o + n))
        (leb (o + n) (length pkt)) (some (take n (drop o pkt))) none (λ e. refl)
        (λ e. absurd (ground (arith, e, h)))

  -- The packet once its node is read, if it is there whole.
  abbrev pub at_node : SmPacket → ℕ → ℕ → SmPacket
  at_node p width o =
      if ltb (length pkt) (o + width) then p else noded p (little_endian (take width (drop o pkt)))

  pub parse_node-Answers :
      (fmt : Sprintf) (p : SmPacket) (width o : ℕ)
      → Answers (SameHead (at_node p width o)) (parse_node pkt fmt p width o)
  unfolding parse_node
  parse_node-Answers fmt p width o = if_same (ltb (length pkt) (o + width)) refl
    where
      rest : Read SmPacket
      rest = number_at pkt width o >>= parse_command pkt fmt p

      target : ℕ
      target = little_endian (take width (drop o pkt))

      if_same :
          (b : Bool)
          → ltb (length pkt) (o + width) ≡ b
          → Answers (SameHead (if b then p else noded p target)) (if b then got p o else rest)
      if_same true e = answers (refl, refl, refl, refl, refl)
      if_same false e =
          subst (λ r. Answers (SameHead (noded p target)) (r >>= parse_command pkt fmt p))
            (sym (number_at-value width o (ground (arith, e))))
            (parse_command-Answers fmt p target (o + width))
