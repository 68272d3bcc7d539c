-- ===== src/RpcMethods/Results/Laws.antt =====
-- rpc_methods.rs: which objects are read as a result.
use btc_rpc_proxy.Prelude.{◌≡◌, refl, ap, ◌∙◌, ◌↔◌, List, [], ◌∷◌, ok, ◌>>=◌, map, bind-ok, ok_inj}
use btc_rpc_proxy.Json.{Fields, array, object}
use btc_rpc_proxy.Serde.{from_value, read, from_list, to_list}
use btc_rpc_proxy.Serde.Codecs.{list_from, each_from}
use btc_rpc_proxy.Serde.Laws.{read-Matches_iff}
use btc_rpc_proxy.Serde.Matches.{AreDistinct, Matches}
use btc_rpc_proxy.State.Peers.{PeerInfo}
use btc_rpc_proxy.State.Network.{BlockchainInfo}
use btc_rpc_proxy.RpcMethods.Results.{
  Crates, peer_info, peer_info_of, peer_info_values, peer_info_from, peers_from, blockchain_info,
  blockchain_info_of, blockchain_info_values, blockchain_info_from,
}

-- The objects that are read as these peers: each holds the three fields once, in any order, and
-- whatever else.
abbrev pub ArePeers : List Fields → List PeerInfo → Type 0
ArePeers [] [] = Unit
ArePeers (fs ∷ fss) (p ∷ ps) = Matches peer_info (peer_info_values p) fs × ArePeers fss ps
ArePeers [] (p ∷ ps) = ⊥
ArePeers (fs ∷ fss) [] = ⊥

peer_info-AreDistinct : AreDistinct peer_info
peer_info-AreDistinct = ((refl, (refl, tt)), ((refl, tt), (tt, tt)))

peer_info_from-Matches_iff :
    (fs : Fields) (p : PeerInfo)
    → (peer_info_from (object fs) ≡ ok p) ↔ Matches peer_info (peer_info_values p) fs
unfolding peer_info_from from_value
peer_info_from-Matches_iff fs p = (
  λ h.
      let (w, first, same) = bind-ok (read peer_info fs) (λ w. ok (peer_info_of w)) p h in
      (read-Matches_iff peer_info (peer_info_values p) fs peer_info-AreDistinct).0
        (first ∙ ap (λ q. ok (peer_info_values q)) (ok_inj same)),
  λ m.
      rw
        ((read-Matches_iff peer_info (peer_info_values p) fs peer_info-AreDistinct).1 m, from_value)
        refl,
)

-- The response of `getpeerinfo` is read as these peers.
pub peers_from-ArePeers_iff :
    (fss : List Fields) (ps : List PeerInfo)
    → (peers_from (array (from_list (map (λ (fs : Fields). object fs) fss))) ≡ ok ps)
      ↔ ArePeers fss ps
unfolding peers_from list_from each_from
peers_from-ArePeers_iff [] [] = (λ h. tt, λ m. refl)
peers_from-ArePeers_iff [] (p ∷ ps) = (λ h. absurd (cc), λ m. absurd m)
peers_from-ArePeers_iff (fs ∷ fss) [] = (
  λ h.
      let rest =
        each_from peer_info_from (to_list (from_list (map (λ (fs : Fields). object fs) fss))) in
      let (p, _, h') =
        bind-ok (peer_info_from (object fs)) (λ p. rest >>= λ ps. ok (p ∷ ps)) [] h in
      let (ps, _, same) = bind-ok rest (λ ps. ok (p ∷ ps)) [] h' in absurd (cc),
  λ m. absurd m,
)
peers_from-ArePeers_iff (fs ∷ fss) (p ∷ ps) =
    let (there, back) = peers_from-ArePeers_iff fss ps in
    let rest =
      each_from peer_info_from (to_list (from_list (map (λ (fs : Fields). object fs) fss))) in
    (
      λ h.
          let (q, first, h') =
            bind-ok (peer_info_from (object fs)) (λ q. rest >>= λ qs. ok (q ∷ qs)) (p ∷ ps) h in
          let (qs, second, same) = bind-ok rest (λ qs. ok (q ∷ qs)) (p ∷ ps) h' in
          ((peer_info_from-Matches_iff fs p).0 (cc), there (cc)),
      λ m. rw ((peer_info_from-Matches_iff fs p).1 m.0, back m.1) refl,
    )

blockchain_info-AreDistinct : (x : Crates) → AreDistinct (blockchain_info x)
blockchain_info-AreDistinct x = ((refl, tt), (tt, tt))

-- The response of `getblockchaininfo` is read from every object that holds the two fields once,
-- or no challenge, and whatever else.
pub blockchain_info_from-Matches_iff :
    (x : Crates) (fs : Fields) (i : BlockchainInfo)
    → (blockchain_info_from x (object fs) ≡ ok i)
      ↔ Matches (blockchain_info x) (blockchain_info_values x i) fs
unfolding blockchain_info_from from_value
blockchain_info_from-Matches_iff x fs i = (
  λ h.
      let (w, first, same) =
        bind-ok (read (blockchain_info x) fs) (λ w. ok (blockchain_info_of x w)) i h in
      (read-Matches_iff (blockchain_info x) (blockchain_info_values x i) fs
          (blockchain_info-AreDistinct x)).0
        (first ∙ ap (λ q. ok (blockchain_info_values x q)) (ok_inj same)),
  λ m.
      rw
        (
          (read-Matches_iff (blockchain_info x) (blockchain_info_values x i) fs
                (blockchain_info-AreDistinct x)).1
              m,
          from_value,
        )
        refl,
)
