-- ===== src/Fetch/Pool/Counts.antt =====
-- Counting and looking up in a list one element of which is taken out, put in or replaced.
use btc_rpc_proxy.Prelude.{
  ℕ, zero, suc, ◌+◌, ◌≤◌, ◌≡◌, refl, ap, Option, some, List, [], ◌∷◌, ◌++◌, map, length, All,
  none-some_clash, some_inj, sym, ◌∙◌, arith,
}
use btc_rpc_proxy.Prelude.Text.{Bytes}
use btc_rpc_proxy.Fetch.Pool.{Connection, Channel, closed, empty, full, Peer, try_send, put}
use btc_rpc_proxy.Fetch.Pool.Steps.{idle, idle_of, is_number, uses, addr_at, IsIdle}

module _ {A : Type 0} where
  pub uses-append :
      (held : A → Option Connection) (id : ℕ) (a b : List A)
      → uses held id (a ++ b) ≡ uses held id a + uses held id b
  uses-append held id [] b = omega arith
  uses-append held id (x ∷ a) b = omega (arith, uses-append held id a b)

  pub uses-middle :
      (held : A → Option Connection) (id : ℕ) (a : List A) (x : A) (b : List A)
      → uses held id (a ++ (x ∷ b)) ≡ is_number id (held x) + uses held id (a ++ b)
  uses-middle held id [] x b = refl
  uses-middle held id (y ∷ a) x b = omega (arith, uses-middle held id a x b)

  pub uses_less :
      (held : A → Option Connection) (id : ℕ) (a : List A) (x : A) (b l : List A)
      → l ≡ a ++ (x ∷ b)
      → uses held id l ≡ is_number id (held x) + uses held id (a ++ b)
  uses_less held id a x b l e = ap (uses held id) e ∙ uses-middle held id a x b

  pub All-middle {κ} :
      (P : A → Type κ) (a : List A) (x : A) (b : List A)
      → All P (a ++ (x ∷ b))
      → P x × All P (a ++ b)
  All-middle P [] x b h = h
  All-middle P (y ∷ a) x b h = let (px, rest) = All-middle P a x b h.1 in (px, (h.0, rest))

  pub All-insert {κ} :
      (P : A → Type κ) (a : List A) (x : A) (b : List A)
      → P x
      → All P (a ++ b)
      → All P (a ++ (x ∷ b))
  All-insert P [] x b px h = (px, h)
  All-insert P (y ∷ a) x b px h = (h.0, All-insert P a x b px h.1)

  pub All-map {κ μ} :
      {P : A → Type κ} {Q : A → Type μ} → ((x : A) → P x → Q x) → (l : List A) → All P l → All Q l
  All-map f [] h = tt
  All-map f (x ∷ l) h = (f x h.0, All-map f l h.1)

abbrev pub addr_of : Peer → Bytes
addr_of p = p.addr

pub map-middle :
    (a : List Peer) (p q : Peer) (b : List Peer)
    → p.addr ≡ q.addr
    → map addr_of (a ++ (q ∷ b)) ≡ map addr_of (a ++ (p ∷ b))
map-middle [] p q b e = ap (λ x. x ∷ map addr_of b) (sym e)
map-middle (x ∷ a) p q b e = ap (λ l. x.addr ∷ l) (map-middle a p q b e)

pub addr_at-middle :
    (a : List Peer) (p : Peer) (b : List Peer) → addr_at (a ++ (p ∷ b)) (length a) ≡ some p.addr
addr_at-middle [] p b = refl
addr_at-middle (x ∷ a) p b = addr_at-middle a p b

pub addr_at-append :
    (l m : List Peer) (i : ℕ) (addr : Bytes)
    → addr_at l i ≡ some addr
    → addr_at (l ++ m) i ≡ some addr
addr_at-append [] m i addr h = absurd (none-some_clash h)
addr_at-append (p ∷ l) m zero addr h = h
addr_at-append (p ∷ l) m (suc i) addr h = addr_at-append l m i addr h

try_send-number :
    (id : ℕ) (c : Connection) (ch : Channel)
    → is_number id (idle_of (try_send c ch)) ≤ is_number id (some c) + is_number id (idle_of ch)
unfolding try_send
try_send-number id c closed = omega arith
try_send-number id c empty = omega arith
try_send-number id c (full d) = omega arith

pub uses-put :
    (id i : ℕ) (c : Connection) (l : List Peer)
    → uses idle id (put i c l) ≤ is_number id (some c) + uses idle id l
unfolding put
uses-put id i c [] = omega arith
uses-put id zero c (p ∷ l) = omega (arith, try_send-number id c p.channel)
uses-put id (suc i) c (p ∷ l) = omega (arith, uses-put id i c l)

pub map-put : (i : ℕ) (c : Connection) (l : List Peer) → map addr_of (put i c l) ≡ map addr_of l
unfolding put
map-put i c [] = refl
map-put zero c (p ∷ l) = refl
map-put (suc i) c (p ∷ l) = ap (λ m. p.addr ∷ m) (map-put i c l)

try_send-IsIdle :
    (addr : Bytes) (c : Connection) (ch : Channel)
    → (c.addr ≡ addr) × (c.unanswered ≡ 0)
    → IsIdle addr (idle_of ch)
    → IsIdle addr (idle_of (try_send c ch))
unfolding try_send
try_send-IsIdle addr c closed h k = k
try_send-IsIdle addr c empty h k = h
try_send-IsIdle addr c (full d) h k = k

pub put-IsIdle :
    (i : ℕ) (c : Connection) (l : List Peer)
    → addr_at l i ≡ some c.addr
    → c.unanswered ≡ 0
    → All (λ (p : Peer). IsIdle p.addr (idle p)) l
    → All (λ (p : Peer). IsIdle p.addr (idle p)) (put i c l)
unfolding put
put-IsIdle i c [] e z h = tt
put-IsIdle zero c (p ∷ l) e z h =
    (try_send-IsIdle p.addr c p.channel (sym (some_inj e), z) h.0, h.1)
put-IsIdle (suc i) c (p ∷ l) e z h = (h.0, put-IsIdle i c l e z h.1)
