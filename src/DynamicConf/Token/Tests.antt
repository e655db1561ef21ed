-- ===== src/DynamicConf/Token/Tests.antt =====
-- Directives read byte by byte.
use nginx_toolkit_module.Base.{◌≡◌, refl, true, List, [], ◌∷◌}
use nginx_toolkit_module.Text.{Bytes, codes}
use nginx_toolkit_module.DynamicConf.Token.{
  Rc, error, ok, block_start, block_done, Scan, exhausted, returned, fresh, step, scan,
}

abbrev got : Scan → List Rc × List Bytes × Bytes
got (exhausted s) = ([], s.args, [])
got (returned rc s rest) = (rc ∷ [], s.args, rest)

abbrev read : Bytes → List Rc × List Bytes × Bytes
read text = got (scan (λ args. true) (fresh 1) text)

plain_directive :
    read (codes " listen  80 \"a b\"; x")
    ≡ (ok ∷ [], codes "listen" ∷ codes "80" ∷ codes "a b" ∷ [], codes " x")
unfolding scan step
plain_directive = refl

comment_then_block : read (codes "# no\nserver {") ≡ (block_start ∷ [], codes "server" ∷ [], [])
unfolding scan step
comment_then_block = refl

variable_brace : read (codes "set a${b};") ≡ (ok ∷ [], codes "set" ∷ codes "a${b}" ∷ [], [])
unfolding scan step
variable_brace = refl

block_end : read (codes " } y") ≡ (block_done ∷ [], [], codes " y")
unfolding scan step
block_end = refl

end_without_space : read (codes "a \"b\"c;") ≡ (error ∷ [], codes "a" ∷ codes "b" ∷ [], codes ";")
unfolding scan step
end_without_space = refl
