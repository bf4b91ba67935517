-- ===== src/Services.antt =====
-- internal/services: the services between the modem and MQTT.
pub mod Call
pub mod Sms
pub mod Inbox
pub mod History
pub mod Ussd
pub mod Manager
