-- ===== src/Users/Intercept/Completed.antt =====
-- users.rs: how bitcoind's rendering of a transaction is completed.
use btc_rpc_proxy.Prelude.{
  ◌≡◌, ◌≢◌, refl, inl, inr, true, false, some, String, [], ◌∷◌, if◌then◌else◌, All, arith,
  Bool-cases,
}
use btc_rpc_proxy.Json.{
  Value, Fields, end, field, null, bool, number, int, string, array, object, member, insert,
  from_u64,
}
use btc_rpc_proxy.Fetch.Block.{BlockHash}
use btc_rpc_proxy.RpcMethods.Blocks.{GetBlockHeaderResult}
use btc_rpc_proxy.Users.Intercept.{Formats}
use btc_rpc_proxy.Users.Intercept.RawTransaction.{in_active_chain, header_fields, with_header}
use text.Mathlib.Text.{◌==◌}
use text.Mathlib.TextEquality.{eq_iff}

member-insert :
    (j k : String) (v : Value) (fs : Fields)
    → member k (insert j v fs) ≡ (if j == k then some v else member k fs)
unfolding member insert
member-insert j k v end = refl
member-insert j k v (field i w fs) = elim (Bool-cases (i == j)) [
  | inl e ↦ rw (e, insert, member) (same ((eq_iff i j).0 e))
  | inr e ↦ elim (Bool-cases (i == k)) [
    | inl g ↦ rw (e, g, differs ((eq_iff i k).0 g) e, insert, member) refl
    | inr g ↦ rw (e, g, insert, member) (member-insert j k v fs)
  ]
]
  where
    differs : i ≡ k → (i == j) ≡ false → (j == k) ≡ false
    differs h e = ground (arith, eq_iff j k, eq_iff i j)

    same :
        i ≡ j
        → (if j == k then some v else member k fs)
          ≡ (if j == k then some v else if i == k then some w else member k fs)
    same h = elim (Bool-cases (j == k)) [ inl g ↦ rw g refl | inr g ↦ rw (g, h, g) refl ]

-- A key that the proxy does not set.
abbrev pub IsOther : String → Type 0
IsOther k =
    All (λ n. (n == k) ≡ false)
      ("in_active_chain" ∷ "hex" ∷ "blockhash" ∷ "confirmations" ∷ "time" ∷ "blocktime" ∷ [])

module _ (f : Formats) (hex : String) (hash : BlockHash) (h : GetBlockHeaderResult) where
  -- What is added to bitcoind's rendering, for a block in the active chain and for one off it.
  pub record IsCompleted (obj fs : Fields) : Type 0 where
    pub hex_given : member "hex" fs ≡ some (string hex)
    pub blockhash : member "blockhash" fs ≡ some (f.crates.hash_to hash)
    pub active :
        in_active_chain h.confirmations ≡ true
        → (member "in_active_chain" fs ≡ some (bool true))
          × (member "confirmations" fs ≡ some (number (int h.confirmations)))
          × (member "time" fs ≡ some (from_u64 h.time))
          × (member "blocktime" fs ≡ some (from_u64 h.time))
    pub stale :
        in_active_chain h.confirmations ≡ false
        → (member "in_active_chain" fs ≡ some (bool false))
          × (member "confirmations" fs ≡ some (from_u64 0))
          × (member "time" fs ≡ member "time" obj)
          × (member "blocktime" fs ≡ member "blocktime" obj)
    pub others : (k : String) → IsOther k → member k fs ≡ member k obj

  header_fields-IsCompleted : (obj : Fields) → IsCompleted obj (header_fields f hex hash h obj)
  unfolding header_fields
  header_fields-IsCompleted obj = elim (Bool-cases (in_active_chain h.confirmations)) [
    | inl a ↦ rw a record {
      hex_given = simp (member-insert);
      blockhash = simp (member-insert);
      active = λ _.
          (simp (member-insert), simp (member-insert), simp (member-insert), simp (member-insert));
      stale = λ n. absurd (cc);
      others =
          λ k o. simp (member-insert, o.0, o.1.0, o.1.1.0, o.1.1.1.0, o.1.1.1.1.0, o.1.1.1.1.1.0);
    }
    | inr a ↦ rw a record {
      hex_given = simp (member-insert);
      blockhash = simp (member-insert);
      active = λ y. absurd (cc);
      stale = λ _.
          (simp (member-insert), simp (member-insert), simp (member-insert), simp (member-insert));
      others = λ k o. simp (member-insert, o.0, o.1.0, o.1.1.0, o.1.1.1.0);
    }
  ]

  -- The value of a reply: an object is completed, and what is none is left.
  pub data IsRendered : Value → Value → Type 0 where
    completed : (obj fs : Fields) → IsCompleted obj fs → IsRendered (object obj) (object fs)
    kept : (v : Value) → ((obj : Fields) → v ≢ object obj) → IsRendered v v

  pub with_header-IsRendered : (v : Value) → IsRendered v (with_header f hex hash h v)
  unfolding with_header
  with_header-IsRendered (object obj) =
      completed obj (header_fields f hex hash h obj) (header_fields-IsCompleted obj)
  with_header-IsRendered null = kept null (λ obj e. absurd (cc))
  with_header-IsRendered (bool b) = kept (bool b) (λ obj e. absurd (cc))
  with_header-IsRendered (number n) = kept (number n) (λ obj e. absurd (cc))
  with_header-IsRendered (string s) = kept (string s) (λ obj e. absurd (cc))
  with_header-IsRendered (array vs) = kept (array vs) (λ obj e. absurd (cc))
