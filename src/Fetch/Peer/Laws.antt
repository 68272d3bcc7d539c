-- ===== src/Fetch/Peer/Laws.antt =====
-- A block that comes from a peer has passed every check, and the loop finds it behind other traffic.
use btc_rpc_proxy.Prelude.{
  ℕ, ◌≡◌, ap, ◌⊎◌, inl, inr, true, some, List, [], ◌∷◌, ◌++◌, String, Result, ok, err, arith,
  Option-cases, Result-cases, All, subst, map,
}
use btc_rpc_proxy.Prelude.Text.{bytes_eq_iff}
use btc_rpc_proxy.Fetch.Block.{Block, BlockHash, Bitcoin}
use btc_rpc_proxy.Fetch.Witness.{check_witnesses}
use btc_rpc_proxy.Fetch.Peer.{
  NetworkMessage, block, ping, other, Sent, get_data, pong, judge, verdict, receive,
  fetch_block_from_peer, Conversation, attempt, fetch_block_from_peers,
}

module _ (bc : Bitcoin) where
  -- The block is the one that was asked for, with the transactions and the witnesses it commits to.
  pub record IsVerified (hash : BlockHash) (b : Block) : Type 0 where
    pub hashed : bc.block_hash b ≡ hash
    pub merkle : bc.check_merkle_root b ≡ true
    pub witnessed : check_witnesses bc b ≡ some true

  verdict_sound :
      (hash : BlockHash) (b c : Block) → verdict bc hash b ≡ ok c → (b ≡ c) × IsVerified hash b
  unfolding verdict judge
  verdict_sound hash b c h = elim (Option-cases (check_witnesses bc b)) [
    | inl e ↦ absurd (ground arith)
    | inr (w, e) ↦ (
      ground arith,
      record {
        hashed = (bytes_eq_iff (bc.block_hash b) hash).0 (ground arith);
        merkle = ground arith;
        witnessed = ground arith;
      },
    )
  ]

  verdict_complete : (hash : BlockHash) (b : Block) → IsVerified hash b → verdict bc hash b ≡ ok b
  unfolding verdict judge
  verdict_complete hash b v =
      rw (v.witnessed, v.merkle, (bytes_eq_iff (bc.block_hash b) hash).1 v.hashed)

  module _ (write : Sent → Result (Unit {0}) String) (hash : BlockHash) where
    -- The message arrived.
    abbrev pub Arrived : Block → List (Result NetworkMessage String) → Type 0
    Arrived b [] = ⊥
    Arrived b (m ∷ rest) = (m ≡ ok (block b)) ⊎ Arrived b rest

    receive_sound :
        (incoming : List (Result NetworkMessage String)) (b : Block)
        → (receive bc write hash incoming).1 ≡ ok b
        → IsVerified hash b × Arrived b incoming
    unfolding receive
    receive_sound [] b h = absurd (cc)
    receive_sound (err e ∷ rest) b h = absurd (cc)
    receive_sound (ok (block c) ∷ rest) b h =
        let (same, v) = verdict_sound hash c b h in
        (subst (IsVerified hash) same v, inl (ap (λ d. ok (block d)) same))
    receive_sound (ok (ping p) ∷ rest) b h = elim (Result-cases (write (pong p))) [
      | inl (u, e) ↦ let (v, a) = receive_sound rest b (ground arith) in (v, inr a)
      | inr (e, f) ↦ absurd (ground arith)
    ]
    receive_sound (ok other ∷ rest) b h = let (v, a) = receive_sound rest b h in (v, inr a)

    -- A block that a peer's fetch returns arrived on the connection and passed the checks for
    -- its hash.
    pub fetch_block_from_peer_sound :
        (magic : Result ℕ String) (incoming : List (Result NetworkMessage String)) (b : Block)
        → (fetch_block_from_peer bc write hash magic incoming).1 ≡ ok b
        → IsVerified hash b × Arrived b incoming
    unfolding fetch_block_from_peer
    fetch_block_from_peer_sound (err e) incoming b h = absurd (cc)
    fetch_block_from_peer_sound (ok magic) incoming b h =
        elim (Result-cases (write (get_data hash))) [
          | inl (u, e) ↦ receive_sound incoming b (ground arith)
          | inr (e, f) ↦ absurd (ground arith)
        ]

    -- The pongs that the messages call for, if they are not blocks.
    unfoldable pub pongs : List NetworkMessage → List Sent
    pongs [] = []
    pongs (ping p ∷ ms) = pong p ∷ pongs ms
    pongs (m ∷ ms) = pongs ms

    abbrev pub IsTraffic : NetworkMessage → Type 0
    IsTraffic (block b) = ⊥
    IsTraffic (ping p) = write (pong p) ≡ ok tt
    IsTraffic other = Unit

    receive_traffic :
        (ms : List NetworkMessage) (rest : List (Result NetworkMessage String)) (b : Block)
        → All IsTraffic ms
        → IsVerified hash b
        → receive bc write hash (map ok ms ++ (ok (block b) ∷ rest)) ≡ (pongs ms, ok b)
    unfolding receive pongs
    receive_traffic [] rest b h v = rw (verdict_complete hash b v)
    receive_traffic (block c ∷ ms) rest b h v = elim h.0 [ ]
    receive_traffic (ping p ∷ ms) rest b h v = rw (h.0, receive_traffic ms rest b h.1 v)
    receive_traffic (other ∷ ms) rest b h v = receive_traffic ms rest b h.1 v

    -- If every write succeeds, a block that passes the checks is returned from behind any
    -- messages that are no blocks; each ping among them is answered by its own pong, in order,
    -- after the request.
    pub fetch_block_from_peer_found :
        (magic : ℕ) (ms : List NetworkMessage) (rest : List (Result NetworkMessage String))
        (b : Block)
        → write (get_data hash) ≡ ok tt
        → All IsTraffic ms
        → IsVerified hash b
        → fetch_block_from_peer bc write hash (ok magic) (map ok ms ++ (ok (block b) ∷ rest))
          ≡ (get_data hash ∷ pongs ms, ok b)
    unfolding fetch_block_from_peer
    fetch_block_from_peer_found magic ms rest b w h v =
        rw (w, receive_traffic ms rest b h v, fetch_block_from_peer)

  module _ (hash : BlockHash) where
    pub attempt_sound :
        (c : Conversation) (b : Block) → attempt bc hash c ≡ ok b → IsVerified hash b
    unfolding attempt
    attempt_sound c b h = elim (Result-cases c.connect) [
      | inl (u, e) ↦
          (fetch_block_from_peer_sound c.write hash c.magic c.incoming b (ground arith)).0
      | inr (f, e) ↦ absurd (ground arith)
    ]

    -- A block is returned exactly if some attempt returns one, and it is verified.
    pub fetch_block_from_peers_sound :
        (peers : List Conversation) (b : Block)
        → fetch_block_from_peers bc hash peers ≡ some b
        → IsVerified hash b
    unfolding fetch_block_from_peers
    fetch_block_from_peers_sound [] b h = absurd (cc)
    fetch_block_from_peers_sound (c ∷ peers) b h = elim (Result-cases (attempt bc hash c)) [
      | inl (d, e) ↦ attempt_sound c b (ground arith)
      | inr (f, e) ↦ fetch_block_from_peers_sound peers b (ground arith)
    ]

    -- If one of the peers delivers a block, a block that passed the checks is returned, whatever
    -- the other peers do.
    pub fetch_block_from_peers_found :
        (before after : List Conversation) (c : Conversation) (b : Block)
        → attempt bc hash c ≡ ok b
        → (d : Block) × (fetch_block_from_peers bc hash (before ++ (c ∷ after)) ≡ some d)
          × IsVerified hash d
    unfolding fetch_block_from_peers
    fetch_block_from_peers_found [] after c b h =
        (b, rw (h, fetch_block_from_peers), attempt_sound c b h)
    fetch_block_from_peers_found (x ∷ before) after c b h =
        elim (Result-cases (attempt bc hash x)) [
          | inl (d, e) ↦ (d, rw (e, fetch_block_from_peers), attempt_sound x d e)
          | inr (f, e) ↦
              rw (e, fetch_block_from_peers) (fetch_block_from_peers_found before after c b h)
        ]
