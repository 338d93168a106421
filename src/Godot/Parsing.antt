-- ===== src/Godot/Parsing.antt =====
-- sm.go: the parser answers on every packet, with what stands at its front.
use gta.Base.{
  not, ◌&&◌, ◌/◌, take, ap, sym, none, subst, some, ◌∙◌, [], ◌∷◌, ℕ, suc, ◌+◌, ◌%◌, ◌≡◌, refl, Bool,
  true, false, Option, List, length, arith, leb, ltb, eqb, if◌then◌else◌, if_elim,
}
use gta.Godot.Buffer.{little_endian, Read, got, ◌>>=◌, map_read, or_panic, slice, take_bytes}
use gta.Godot.Values.{Sprintf}
use gta.Godot.Packets.{
  node_width, with_node, fresh, cmd_names, SmPacket, bytes_at, number_at, parse_sys, parse_node,
  parse_sm,
}
use gta.Godot.Answering.{
  Answers, answers, SameHead, Answers-if, parse_sys-Answers, at_node, parse_node-Answers,
}

first_byte : (meta : ℕ) (body : List ℕ) → number_at (meta ∷ body) 1 0 ≡ got meta 1
unfolding number_at bytes_at take_bytes slice little_endian
first_byte meta body =
    if_elim (λ (z : Option (List ℕ)). map_read little_endian (or_panic z 1) ≡ got meta 1)
      (leb 1 (suc (length body))) (some (meta ∷ [])) none (λ e. ap (λ n. got n 1) (omega arith))
      (λ e. absurd (ground (arith, e)))

-- What stands at the front of a packet with a first byte: the byte, the command in its three low bits
-- and, if that is a call, the id of its node where all its bytes are there.
abbrev pub node_id : ℕ → List ℕ → Option ℕ
node_id meta body =
    let width = node_width ((meta / 16) % 4) in
    if eqb (meta % 8) 0 && leb width (length body)
    then some (little_endian (take width body))
    else none

abbrev pub is_path : Option ℕ → Bool
is_path none = false
is_path (some id) = leb 2147483648 id

abbrev pub psc_part : Option ℕ → ℕ
psc_part none = 0
psc_part (some id) = if leb 2147483648 id then 0 else id

-- The packet says what stands at the front, where `id` is that of the node.
abbrev pub Fronted : ℕ → Option ℕ → SmPacket → Type 0
Fronted meta id p =
    (p.meta ≡ meta)
    × (p.cmd ≡ meta % 8)
    × (p.cmd_name ≡ cmd_names (meta % 8))
    × (p.node_is_path ≡ is_path id)
    × (p.node_psc ≡ psc_part id)

abbrev pub Front : ℕ → List ℕ → SmPacket → ℕ → Type 0
Front meta body p o = Fronted meta (node_id meta body) p

-- The packet of which the first byte is read.
abbrev headed : ℕ → List ℕ → SmPacket
headed meta body = record (fresh (meta ∷ body)) {
  meta = meta;
  cmd = meta % 8;
  cmd_name = cmd_names (meta % 8);
}

headed-Fronted : (meta : ℕ) (body : List ℕ) → Fronted meta none (headed meta body)
unfolding fresh
headed-Fronted meta body = (refl, refl, refl, refl, refl)

with_node-Fronted :
    (meta : ℕ) (body : List ℕ) (id : ℕ)
    → Fronted meta (some id) (with_node (meta ∷ body) (headed meta body) id)
unfolding with_node fresh
with_node-Fronted meta body id =
    by_side (leb 2147483648 id) (headed meta body) refl refl refl refl refl _
  where
    by_side :
        (b : Bool) (p : SmPacket)
        → p.meta ≡ meta
        → p.cmd ≡ meta % 8
        → p.cmd_name ≡ cmd_names (meta % 8)
        → p.node_is_path ≡ false
        → p.node_psc ≡ 0
        → (path : List ℕ)
        → let q =
            if b
            then record p { node_is_path = true; node_path = path }
            else record p { node_psc = id } in
          (q.meta ≡ meta)
          × (q.cmd ≡ meta % 8)
          × (q.cmd_name ≡ cmd_names (meta % 8))
          × (q.node_is_path ≡ b)
          × (q.node_psc ≡ (if b then 0 else id))
    by_side true p m c n i k path = (m, c, n, refl, k)
    by_side false p m c n i k path = (m, c, n, i, refl)

at_node-Front :
    (meta : ℕ) (body : List ℕ)
    → Front meta body (at_node (meta ∷ body) (headed meta body) (node_width ((meta / 16) % 4)) 1) 0
at_node-Front meta body =
    by_tests (eqb (meta % 8) 0) (ltb (suc (length body)) (1 + width)) (leb width (length body))
      (ground arith)
  where
    width : ℕ
    width = node_width ((meta / 16) % 4)

    id : ℕ
    id = little_endian (take width body)

    by_tests :
        (call short whole : Bool)
        → whole ≡ not short
        → Fronted meta (if call && whole then some id else none) (
            if short
            then headed meta body
            else if call
            then with_node (meta ∷ body) (headed meta body) id
            else headed meta body)
    by_tests true true true e = absurd (ground (arith, e))
    by_tests false true true e = headed-Fronted meta body
    by_tests true true false e = headed-Fronted meta body
    by_tests false true false e = headed-Fronted meta body
    by_tests true false false e = absurd (ground (arith, e))
    by_tests true false true e = with_node-Fronted meta body id
    by_tests false false true e = headed-Fronted meta body
    by_tests false false false e = headed-Fronted meta body

no_node : (meta : ℕ) (body : List ℕ) → eqb (meta % 8) 7 ≡ true → node_id meta body ≡ none
no_node meta body e =
    ap
      (λ b.
        let width = node_width ((meta / 16) % 4) in
        if b && leb width (length body) then some (little_endian (take width body)) else none)
      other
  where
    other : eqb (meta % 8) 0 ≡ false
    other = ground (arith, e)

headed-Front :
    (meta : ℕ) (body : List ℕ) → eqb (meta % 8) 7 ≡ true → Front meta body (headed meta body) 0
headed-Front meta body e =
    subst (λ z. Fronted meta z (headed meta body)) (sym (no_node meta body e))
      (headed-Fronted meta body)

of_head :
    (meta : ℕ) (body : List ℕ) (p : SmPacket) {r : Read SmPacket}
    → Front meta body p 0
    → Answers (SameHead p) r
    → Answers (Front meta body) r
of_head meta body p (m, c, n, i, k) (answers (m', c', n', i', k')) =
    answers (m' ∙ m, c' ∙ c, n' ∙ n, i' ∙ i, k' ∙ k)

pub parse_sm-Answers :
    (fmt : Sprintf) (meta : ℕ) (body : List ℕ)
    → Answers (Front meta body) (parse_sm (meta ∷ body) fmt)
      × Answers (λ p o. p ≡ fresh []) (parse_sm [] fmt)
unfolding parse_sm
parse_sm-Answers fmt meta body = (
  Answers-if (eqb (suc (length body)) 0) (λ e. absurd (ground (arith, e)))
      (λ e. subst (λ r. Answers (Front meta body) (r >>= rest)) (sym (first_byte meta body)) read),
  answers refl,
)
  where
    rest : ℕ → ℕ → Read SmPacket
    rest m o =
        let p = record (fresh (meta ∷ body)) {
          meta = m;
          cmd = m % 8;
          cmd_name = cmd_names (m % 8);
        } in
        if eqb (m % 8) 7
        then parse_sys (meta ∷ body) p o
        else parse_node (meta ∷ body) fmt p (node_width ((m / 16) % 4)) o

    read : Answers (Front meta body) (rest meta 1)
    read =
        Answers-if (eqb (meta % 8) 7)
          (λ e.
            of_head meta body (headed meta body) (headed-Front meta body e)
              (parse_sys-Answers (meta ∷ body) (headed meta body) 1))
          (λ e.
            of_head meta body
              (at_node (meta ∷ body) (headed meta body) (node_width ((meta / 16) % 4)) 1)
              (at_node-Front meta body)
              (parse_node-Answers (meta ∷ body) fmt (headed meta body)
                (node_width ((meta / 16) % 4)) 1))
