-- ===== src/Backend/Resolved.antt =====
-- The labels of a whole assembly file.
use tatlang.Prelude.{ℕ, ◌≡◌, refl, subst, true, false, Option, List, [], ◌∷◌, arith}
use tatlang.Tree.{Name, NodeType, NodeValue, Tree, null, node, num, var}
use tatlang.Backend.Lines.{Line, hlt, BkdError, bkd_all_good, Manager, done, Gen, swallow, write}
use tatlang.Backend.Names.{upgrade_n_table, downgrade_n_table}
use tatlang.Backend.Codegen.Asmbl.{asmbl_node, asmbl, asmbl_args, assembly}
use tatlang.Backend.Codegen.{get_cond_type, write_while, write_if, write_num}
use tatlang.Backend.Codegen.Calls.{write_std_func}
use tatlang.Backend.Labels.{Resolved, Valid, ValidArgs, ValidNode-map, ValidNode, Neat}
use tatlang.Backend.Neat.{NeatGen, Neat-and_then, Neat-swallow, write-NeatGen, ⟫-NeatGen}
use tatlang.Backend.Neat.Flow.{
  write_var-NeatGen, write_op-NeatGen, write_cond_expr-NeatGen, write_while-NeatGen,
  write_if-NeatGen,
}
use tatlang.Backend.Neat.Calls.{
  NeatGens, write_func-NeatGen, write_main-NeatGen, write_func_decl-NeatGen, write_return-NeatGen,
  write_std_func-NeatGen,
}

module _ (F : Type 0) (k : ℕ) where
  swallowed-NeatGen :
      (g : Gen F) → NeatGen F k g → (n : ℕ) (m : Manager) → Neat k n (swallow (g n m))
  swallowed-NeatGen g h n m = Neat-swallow F k n (g n m) (h n m)

  asmbl_node-NeatGen :
      (ty : NodeType) (v : NodeValue F) (left right : Gen F) (args : List (Gen F))
      (ln rn : Option (Option Name)) (ps : Option (List (Option Name)))
      → ValidNode ty v.op_value (NeatGen F k left) (NeatGen F k right) (NeatGens F k args)
      → NeatGen F k (asmbl_node ty v left right args ln rn ps)
  unfolding asmbl_node get_cond_type
  asmbl_node-NeatGen NodeType.scope_start v l r args ln rn ps h n m =
      ⟫-NeatGen F k l r h.0 h.1 n (upgrade_n_table m)
  asmbl_node-NeatGen NodeType.scope_end v l r args ln rn ps h n m =
      ⟫-NeatGen F k l r h.0 h.1 n (downgrade_n_table m)
  asmbl_node-NeatGen NodeType.semicolon v l r args ln rn ps h n m = ⟫-NeatGen F k l r h.0 h.1 n m
  asmbl_node-NeatGen NodeType.while_node v l r args ln rn ps h n m =
      swallowed-NeatGen (write_while l r) (write_while-NeatGen F k l r h.0 h.1) n m
  asmbl_node-NeatGen NodeType.if_node v l r args ln rn ps h n m =
      swallowed-NeatGen (write_if l r) (write_if-NeatGen F k l r h.0 h.1) n m
  asmbl_node-NeatGen NodeType.std_func v l r args ln rn ps h n m =
      swallowed-NeatGen (write_std_func v.func r rn) (write_std_func-NeatGen F k v.func r rn h) n m
  asmbl_node-NeatGen NodeType.func v l r args ln rn ps h n m =
      swallowed-NeatGen _ (write_func-NeatGen F k true v.var_value args h) n m
  asmbl_node-NeatGen NodeType.cmd_func v l r args ln rn ps h n m =
      swallowed-NeatGen _ (write_func-NeatGen F k false v.var_value args h) n m
  asmbl_node-NeatGen NodeType.func_decl v l r args ln rn ps h n m =
      swallowed-NeatGen _ (write_func_decl-NeatGen F k v.var_value ps r h) n m
  asmbl_node-NeatGen NodeType.return_node v l r args ln rn ps h n m =
      swallowed-NeatGen _ (write_return-NeatGen F k r h) n m
  asmbl_node-NeatGen NodeType.main v l r args ln rn ps h n m =
      swallowed-NeatGen _ (write_main-NeatGen F k r h) n m
  asmbl_node-NeatGen NodeType.op v l r args ln rn ps h n m =
      swallowed-NeatGen _ (write_op-NeatGen F k v.op_value l r ln h) n m
  asmbl_node-NeatGen NodeType.unr_op v l r args ln rn ps h n m =
      swallowed-NeatGen _ (write_op-NeatGen F k v.op_value l r ln h) n m
  asmbl_node-NeatGen var v l r args ln rn ps h n m =
      swallowed-NeatGen _ (write_var-NeatGen F k v.var_value) n m
  asmbl_node-NeatGen num v l r args ln rn ps h n m =
      unfold write_num in
      write-NeatGen F k (Line.push_num v.num_value ∷ []) (refl, refl, refl, refl) n m
  asmbl_node-NeatGen NodeType.above v l r args ln rn ps h n m =
      swallowed-NeatGen _ (write_cond_expr-NeatGen F k NodeType.above l r _ refl h.0 h.1) n m
  asmbl_node-NeatGen NodeType.below v l r args ln rn ps h n m =
      swallowed-NeatGen _ (write_cond_expr-NeatGen F k NodeType.below l r _ refl h.0 h.1) n m
  asmbl_node-NeatGen NodeType.above_equal v l r args ln rn ps h n m =
      swallowed-NeatGen _ (write_cond_expr-NeatGen F k NodeType.above_equal l r _ refl h.0 h.1) n m
  asmbl_node-NeatGen NodeType.below_equal v l r args ln rn ps h n m =
      swallowed-NeatGen _ (write_cond_expr-NeatGen F k NodeType.below_equal l r _ refl h.0 h.1) n m
  asmbl_node-NeatGen NodeType.equal v l r args ln rn ps h n m =
      swallowed-NeatGen _ (write_cond_expr-NeatGen F k NodeType.equal l r _ refl h.0 h.1) n m
  asmbl_node-NeatGen NodeType.not_equal v l r args ln rn ps h n m =
      swallowed-NeatGen _ (write_cond_expr-NeatGen F k NodeType.not_equal l r _ refl h.0 h.1) n m
  asmbl_node-NeatGen _ v l r args ln rn ps h n m = absurd h

  -- `Valid` over the writers instead of the trees.
  abbrev ValidWriters : NodeType → NodeValue F → Tree F → Tree F → Type 0
  ValidWriters ty v l r =
      ValidNode ty v.op_value (NeatGen F k (asmbl l)) (NeatGen F k (asmbl r))
        (NeatGens F k (asmbl_args l))

  mutual
    unfolding asmbl

    pub asmbl-NeatGen : (t : Tree F) → Valid t → NeatGen F k (asmbl t)
    asmbl-NeatGen null h = write-NeatGen F k [] (refl, refl, refl, refl)
    asmbl-NeatGen (node ty v l r) h =
        asmbl_node-NeatGen ty v (asmbl l) (asmbl r) (asmbl_args l) _ _ _
          (ValidNode-map ty v.op_value (asmbl-NeatGen l) (asmbl-NeatGen r) (asmbl_args-NeatGen l) h)

    asmbl_args-NeatGen : (t : Tree F) → ValidArgs t → NeatGens F k (asmbl_args t)
    asmbl_args-NeatGen null h = tt
    asmbl_args-NeatGen (node ty v l r) h = (asmbl-NeatGen l h.1, asmbl_args-NeatGen r h.2)

-- Where the backend has written a tree of the language, it reported no error, and in the lines
-- each `break_k` and `while_k` of the backend is defined at most once, every jump to `break_k` has
-- its label, and the jumps to `while_k` are as many as its labels. The labels of functions and of
-- main are not counted.
pub assembly-labels :
    {F : Type 0} (root : Tree F) (e : BkdError) (n : ℕ) (m : Manager) (out : List (Line F))
    → Valid root
    → assembly root ≡ done e n m out
    → (e ≡ bkd_all_good) × Resolved out
unfolding assembly
assembly-labels {F} root e n m out valid h =
    ((neat 0).0, λ k. let tidy = (neat k).1 in ground arith)
  where
    neat : (k : ℕ) → Neat k 0 (done e n m out)
    neat k = subst (Neat k 0) h (
        Neat-and_then F k 0 _ (write (hlt ∷ [])) (asmbl-NeatGen F k root valid 0 _)
          (write-NeatGen F k (hlt ∷ []) (refl, refl, refl, refl)))
