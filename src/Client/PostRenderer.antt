-- ===== src/Client/PostRenderer.antt =====
-- pkg/client/postrenderer.go. A post-renderer rewrites a manifest, which is a text here.
pub mod Chain
pub mod Owner
use helm_operator_plugins.Prelude.{message, Result, ok, err, String, Option, none, some}

-- `single` is any renderer that is no chain.
mutual
  pub data PostRenderer : Type 0 where
    single : (String → Result String) → PostRenderer
    chained : PostRenderers → PostRenderer

  pub data PostRenderers : Type 0 where
    nil : PostRenderers
    cons : PostRenderer → PostRenderers → PostRenderers

abbrev pub append : PostRenderers → PostRenderer → PostRenderers
append nil pr = PostRenderers.cons pr PostRenderers.nil
append (cons p prs) pr = PostRenderers.cons p (append prs pr)

unfoldable pub append_post_renderer : Option PostRenderer → PostRenderer → PostRenderer
append_post_renderer none extra = extra
append_post_renderer (some (chained cpr)) extra = chained (append cpr extra)
append_post_renderer (some (single f)) extra =
    chained (PostRenderers.cons (single f) (PostRenderers.cons extra PostRenderers.nil))

-- The error of a chain is made with `%v`: its cause cannot be asked for.
unfoldable mutual
  pub run : PostRenderer → String → Result String
  run (single f) text = f text
  run (chained prs) text = run_chain prs text

  pub run_chain : PostRenderers → String → Result String
  run_chain nil text = ok text
  run_chain (cons pr prs) text = elim (run pr text) [
    | err e ↦ err (message "postrenderer failed")
    | ok out ↦ run_chain prs out
  ]
