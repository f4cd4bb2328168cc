-- ===== src/Configuration/Runs.antt =====
-- Tests of the model of src/Configrution.cc.
use simple_search_enginer.Prelude.{
  ◌≡◌, refl, some, [], ◌∷◌, is_space, skip_spaces, getlines, Bytes_discrete,
}
use simple_search_enginer.Configuration.{
  cut_word, make_pair, insert_new, config_lines, config_map_init,
}

-- " a  b c" and "a d"
config_map_init-twice :
    config_map_init (some (32 ∷ 97 ∷ 32 ∷ 32 ∷ 98 ∷ 32 ∷ 99 ∷ 10 ∷ 97 ∷ 32 ∷ 100 ∷ [])) []
    ≡ (97 ∷ [], 98 ∷ []) ∷ []
unfolding config_map_init config_lines insert_new make_pair cut_word is_space skip_spaces getlines
    Bytes_discrete
config_map_init-twice = refl
