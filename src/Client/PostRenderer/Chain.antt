-- ===== src/Client/PostRenderer/Chain.antt =====
-- Appending a post-renderer runs it after those that are there.
use helm_operator_plugins.Client.PostRenderer.{
  PostRenderer, single, chained, PostRenderers, nil, cons, append, append_post_renderer, run,
  run_chain,
}
use helm_operator_plugins.Prelude.{message, Result, ok, err, String, ◌≡◌, refl, some, arith}

-- What comes after a first step, as the chain reports it.
abbrev pub and_then : Result String → (String → Result String) → Result String
and_then (err e) f = err (message "postrenderer failed")
and_then (ok out) f = f out

abbrev pub opaque : Result String → Result String
opaque (ok out) = ok out
opaque (err e) = err (message "postrenderer failed")

pub run_chain-append :
    (prs : PostRenderers) (pr : PostRenderer) (text : String)
    → run_chain (append prs pr) text ≡ and_then (run_chain prs text) (λ out. opaque (run pr out))
unfolding run run_chain
run_chain-append nil pr t = ground arith
run_chain-append (cons p prs) pr t = step (run p t) (λ out. run_chain-append prs pr out)
  where
    step :
        (r : Result String)
        → ((out : String)
            → run_chain (append prs pr) out
              ≡ and_then (run_chain prs out) (λ out'. opaque (run pr out')))
        → (elim r [
          | err e ↦ err (message "postrenderer failed")
          | ok out ↦ run_chain (append prs pr) out
        ])
          ≡ and_then
              (elim r [ err e ↦ err (message "postrenderer failed") | ok out ↦ run_chain prs out ])
              (λ out. opaque (run pr out))
    step (ok out) ih = ih out
    step (err e) ih = refl

-- The renderer that AppendInstallPostRenderer and AppendUpgradePostRenderer build from one that is
-- configured runs that one first and the new one on its output; an error of either is reported as
-- an error of the chain.
pub run-append_post_renderer :
    (pr extra : PostRenderer) (text : String)
    → run (append_post_renderer (some pr) extra) text
      ≡ and_then (run pr text) (λ out. opaque (run extra out))
unfolding append_post_renderer run
run-append_post_renderer (chained prs) extra text = run_chain-append prs extra text
run-append_post_renderer (single f) extra text = ground arith
