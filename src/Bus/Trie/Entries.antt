-- ===== src/Bus/Trie/Entries.antt =====
-- bus/bus.go: what the four writers of the trie do to what each path holds.
use devicecode_go.Base.{ite, ℕ, ◌≡◌, refl, none, some, [], ◌∷◌, ◌++◌}
use devicecode_go.Bus.Topic.{Topic, Message}
use devicecode_go.Bus.Trie.{
  Node, append_sub, drop_sub, set_retained, remove_sub, insert_sub, unsubscribe, retain_set,
  retain_delete,
}
use devicecode_go.Bus.Trie.Paths.{
  Topic-discrete, entry_at, changed, entry_at-update_path, entry_at-prune_path,
}

-- Registering a subscription appends it to the list at its path, and changes no other path; to
-- unsubscribe takes its first occurrence out of that list, whether the path is there or not and
-- whatever is pruned on the way back, and changes no other path.
pub subscriptions_lem :
    (x : ℕ) (n : Node) (p q : Topic)
    → (entry_at (insert_sub x n p) q
        ≡ ite (Topic-discrete q p) ((entry_at n p).0 ++ (x ∷ []), (entry_at n p).1) (entry_at n q))
      × (entry_at (unsubscribe x n p) q
          ≡ ite
              (Topic-discrete q p)
              (remove_sub x (entry_at n p).0, (entry_at n p).1)
              (entry_at n q))
unfolding insert_sub unsubscribe changed
subscriptions_lem x n p q = (
  entry_at-update_path (append_sub x) (λ ss. ss ++ (x ∷ [])) (λ r. r) (λ cs ss r. refl) n p q,
  entry_at-prune_path (drop_sub x) (remove_sub x) (λ r. r) (λ cs ss r. refl) refl refl n p q,
)

-- To store a retained message puts it at its path in place of an earlier one; to delete it leaves
-- none there; both keep every subscription and every other path.
pub retained_lem :
    (m : Message) (n : Node) (p q : Topic)
    → (entry_at (retain_set m n p) q
        ≡ ite (Topic-discrete q p) ((entry_at n p).0, some m) (entry_at n q))
      × (entry_at (retain_delete n p) q
          ≡ ite (Topic-discrete q p) ((entry_at n p).0, none) (entry_at n q))
unfolding retain_set retain_delete changed
retained_lem m n p q = (
  entry_at-update_path (set_retained (some m)) (λ ss. ss) (λ r. some m) (λ cs ss r. refl) n p q,
  entry_at-prune_path (set_retained none) (λ ss. ss) (λ r. none) (λ cs ss r. refl) refl refl n p q,
)
