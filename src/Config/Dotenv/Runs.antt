-- ===== src/Config/Dotenv/Runs.antt =====
-- internal/config/dotenv.go: a file and its settings.
use gsm2mqtt.Base.{some, [], ◌∷◌, ◌≡◌, refl}
use gsm2mqtt.Base.Text.{codes, trim_space, trim_left, trim_right}
use gsm2mqtt.Config.Dotenv.{
  parse_env_line, parse_env_file, merge_file, load_dot_env, first_value, get_hierarchical_value,
}

comment_behind :
    parse_env_line (codes "export MQTT_PORT = 1883 # plain")
    ≡ some (codes "MQTT_PORT", codes "1883")
unfolding parse_env_line trim_space trim_left trim_right
comment_behind = refl

-- The first file that has a key wins, and the environment wins over both.
first_file_wins :
    get_hierarchical_value
      (λ key. [])
      (load_dot_env ((codes "A=\"1 # x\"" ∷ []) ∷ (codes "A=2" ∷ []) ∷ []) [])
      (codes "B" ∷ codes "A" ∷ [])
    ≡ codes "1 # x"
unfolding get_hierarchical_value first_value load_dot_env merge_file parse_env_file parse_env_line
    trim_space trim_left trim_right
first_file_wins = refl
