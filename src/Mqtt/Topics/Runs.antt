-- ===== src/Mqtt/Topics/Runs.antt =====
-- internal/mqtt/topics.go: the topics of one modem.
use gsm2mqtt.Base.{◌≡◌, refl}
use gsm2mqtt.Base.Text.{codes}
use gsm2mqtt.Mqtt.Topics.{Topics, new_topics, sms_send}
use gsm2mqtt.Mqtt.Topics.Distinct.{AllDifferent, modem_topics, gateway_topics, topics-AllDifferent}

abbrev home : Topics
home = new_topics (codes "gsm") (codes "m1")

send_topic : sms_send home ≡ codes "gsm/modem/m1/sms/send"
send_topic = refl

topics-AllDifferent_example : AllDifferent (modem_topics home) × AllDifferent (gateway_topics home)
topics-AllDifferent_example = topics-AllDifferent home
