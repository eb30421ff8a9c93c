-- ===== src/Telegram.antt =====
-- internal/notifier/telegram: what the bot makes of modem responses and of forwarded messages.
pub mod Parse
pub mod Format
pub mod Explain
pub mod Markup
pub mod Menu
pub mod Service
pub mod Notify
mod Examples
