-- ===== src/Workflow/Completed.antt =====
-- What the status COMPLETED of a workflow says of the node table.
use boardroom_os.Base.{
  ℕ, String, ◌≡◌, refl, sym, ◌∙◌, ap, Bool, true, false, Option, none, some, List, [], ◌∷◌, ◌++◌,
  map, arith, ◌==◌, text_eq, option_eq, eq_iff, if◌then◌else◌, Bool-cases, inl, inr, ltb, subst,
}
use mathlib.Core.List.{append_assoc, append-nil}
use boardroom_os.Base.Result.{ok, >>=-eq-ok, ok_inj}
use boardroom_os.Base.All.{All, keep}
use boardroom_os.Base.Dict.{Dict, get, put, get_or, get-put}
use boardroom_os.Field.{str}
use boardroom_os.Node.{Node, NodeStatus}
use boardroom_os.Completion.Closeout.{CloseoutCompletion, is_completed}
use boardroom_os.Completion.Resolve.{resolve_workflow_closeout_completion-IsDelivered}
use boardroom_os.Completion.CurrentStage.{infer_workflow_current_stage}
use boardroom_os.Workflow.{Context, of_workflow, belongs, status_of, closeout_of, finish}
use boardroom_os.Workflow.Loop.{Workflow}
use boardroom_os.Workflow.Rows.{group_from, nodes_by_workflow, node_row}

module _ {ℓ} {A B : Type ℓ} (key : A → String) (row : A → B) where
  get_or-put :
      (w k : String) (v : List B) (d : Dict String (List B))
      → get_or w [] (put k v d) ≡ (if k == w then v else get_or w [] d)
  get_or-put w k v d =
      ap (λ (o : Option (List B)). elim o [ none ↦ [] | some x ↦ x ]) (get-put k w v d)
      ∙ if_some (k == w) v (get w d)
    where
      if_some :
          (b : Bool) (x : List B) (o : Option (List B))
          → (elim (if b then some x else o) [ none ↦ [] | some y ↦ y ])
            ≡ (if b then x else elim o [ none ↦ [] | some y ↦ y ])
      if_some true x o = refl
      if_some false x o = refl

  grouped :
      (b : Bool) (x g : List B) (a : A) (items : List A)
      → (b ≡ true → x ≡ g)
      → ((if b then x ++ row a ∷ [] else g) ++ map row items)
        ≡ (g ++ map row (if b then a ∷ items else items))
  grouped true x g a items f =
      ap (λ l. (l ++ row a ∷ []) ++ map row items) (f refl)
      ∙ append_assoc g (row a ∷ []) (map row items)
  grouped false x g a items f = refl

  -- A group holds the rows of the items with its key, in their order.
  group_from-get_or :
      (w : String) (groups : Dict String (List B)) (items : List A)
      → get_or w [] (group_from key row groups items)
        ≡ (get_or w [] groups ++ map row (keep (λ a. key a == w) items))
  unfolding group_from keep
  group_from-get_or w groups [] = sym (append-nil (get_or w [] groups))
  group_from-get_or w groups (a ∷ items) =
      group_from-get_or w (put (key a) (get_or (key a) [] groups ++ row a ∷ []) groups) items
      ∙ ap (λ l. l ++ map row (keep (λ x. key x == w) items))
          (get_or-put w (key a) (get_or (key a) [] groups ++ row a ∷ []) groups)
      ∙ grouped (key a == w) (get_or (key a) [] groups) (get_or w [] groups) a
          (keep (λ x. key x == w) items)
          (λ h. ap (λ k. get_or k [] groups) ((eq_iff (key a) w).0 h))

completed_of : (s : NodeStatus) → is_completed s ≡ true → s ≡ NodeStatus.completed
completed_of s h = ground arith

kept :
    (w : String) (nodes : List Node)
    → All
        (λ n. is_completed n.projection.status ≡ true)
        (map node_row (keep (λ n. str n.workflow_id == w) nodes))
    → All (λ n. str n.workflow_id ≡ w → n.status ≡ NodeStatus.completed) nodes
unfolding keep node_row
kept w [] h = tt
kept w (n ∷ ns) h = elim (Bool-cases (str n.workflow_id == w)) [
  | inl hit ↦ let both = rw hit at h in (λ _. completed_of n.status both.0, kept w ns both.1)
  | inr miss ↦
      (λ e. absurd (cc (miss, (eq_iff (str n.workflow_id) w).1 e)), kept w ns (rw miss at h))
]

completion_there :
    (o : Option CloseoutCompletion)
    → status_of o ≡ "COMPLETED"
    → (c : CloseoutCompletion) × (o ≡ some c)
completion_there (some c) h = (c, refl)
completion_there none h =
    let same : false ≡ true = (eq_iff "EXECUTING" "COMPLETED").1 h in absurd (cc)

-- If the last loop of `rebuild_workflow_projections` gives a workflow the status COMPLETED, where the
-- nodes by workflow are made from a node table, then the count of open approvals that the
-- loop has for the workflow is not above 0, and every node of that table that is in the workflow is
-- COMPLETED.
pub finish-completed :
    (depth : ℕ) (c : Context) (nodes : List Node) (w : String) (p q : Workflow)
    → c.nodes ≡ nodes_by_workflow nodes
    → finish depth c (some w) p ≡ ok q
    → q.status ≡ "COMPLETED"
    → (ltb 0 (get_or (some w) 0 c.open_approvals) ≡ false)
      × All (λ n. str n.workflow_id ≡ w → n.status ≡ NodeStatus.completed) nodes
unfolding finish closeout_of nodes_by_workflow keep get
finish-completed depth c nodes w p q table h done =
    let (o, closed, rest) = >>=-eq-ok (closeout_of depth c (some w)) _ h in
    let (stage, _, made) =
      >>=-eq-ok
        (infer_workflow_current_stage depth (get_or w [] c.nodes) (keep (belongs (some w)) c.specs)
          o)
        _ rest in
    let (completion, there) =
      completion_there o (ap (λ (r : Workflow). r.status) (ok_inj _ _ made) ∙ done) in
    let (no_approval, _, _, delivered) =
      resolve_workflow_closeout_completion-IsDelivered depth (of_workflow (some w) [] c.tickets)
        (get_or w [] c.nodes) (ltb 0 (get_or (some w) 0 c.open_approvals))
        (ltb 0 (get_or w 0 c.open_incidents)) (keep (belongs (some w)) c.specs) _ completion
        (closed ∙ ap ok there) in
    let rows =
      ap (λ d. get_or w [] d) table
      ∙ group_from-get_or (λ n. str n.workflow_id) node_row w [] nodes in
    (
      no_approval,
      kept w nodes
          (subst (All (λ n. is_completed n.projection.status ≡ true)) rows delivered.nodes_done),
    )
